-- ===== src/Providers.antt =====
-- src/types/utils.ts and src/dbus/dbus.module.ts: which class stands for a service.
use rpi_nest_api.Prelude.{Bool, List, [], ◌∷◌, map, if◌then◌else◌}

module _ (Class : Type 0) where
  pub record MockedService : Type 0 where
    pub implementation : Class
    pub mock : Class

  pub record ClassProvider : Type 0 where
    pub provide : Class
    pub use_class : Class

module _ {Class : Type 0} where
  abbrev pub get_services_with_mock : Class → Class → MockedService Class
  get_services_with_mock implementation mock = record {
    implementation = implementation;
    mock = mock;
  }

  abbrev pub register_service_with_mock : MockedService Class → Bool → ClassProvider Class
  register_service_with_mock mocked_service is_production = record {
    provide = mocked_service.implementation;
    use_class = if is_production then mocked_service.implementation else mocked_service.mock;
  }

-- The services of the module of D-Bus, each as it is and as its double
pub data DbusService : Type 0 where
  logind systemd1 network_device network_settings time_date1 system_bus : DbusService

pub data DbusClass : Type 0 where
  service : DbusService → DbusClass
  service_mock : DbusService → DbusClass

abbrev pub provider : DbusService → MockedService DbusClass
provider s = get_services_with_mock (service s) (service_mock s)

-- `DbusModule.register`, without the commands
abbrev pub dbus_providers : Bool → List (ClassProvider DbusClass)
dbus_providers is_production =
    map (λ s. register_service_with_mock (provider s) is_production)
      (system_bus ∷ logind ∷ systemd1 ∷ network_device ∷ network_settings ∷ time_date1 ∷ [])
