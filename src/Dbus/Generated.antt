-- ===== src/Dbus/Generated.antt =====
-- The generated proxies: src/dbus/interfaces/timedate1/timedate1.proxy.ts and
-- src/dbus/interfaces/network-manager/settings-connection.proxy.ts. `Connect` gives an object to the
-- constructor, which looks up the interface itself and that of its properties.
use rpi_nest_api.Prelude.{ℕ, String, Bool, false, Option, List, [], ◌∷◌, or_else}
use rpi_nest_api.Exec.{Void, Exec, pure, lift, ◌>>=◌, ◌>>◌}
use rpi_nest_api.Dbus.Variants.{Value, boolean, number, text, property}
use rpi_nest_api.Dbus.Proxy.{
  MessageBus, ProxyObject, Interface, create_proxy, get_proxy, get_interface, call_method,
}
pub mod TimeDate1
pub mod SettingsConnection

-- The fields `thisDBusInterface` and `propertiesDBusInterface`
pub record Generated : Type 0 where
  pub this_interface : Interface
  pub properties_interface : Interface

module _ {St : Type 0} (bus : MessageBus St) where
  -- The constructor, for the interface with the name
  unfoldable pub generated : String → ProxyObject → Exec St Generated
  generated interface_name object = do
    this ← get_interface bus object interface_name
    properties ← get_interface bus object "org.freedesktop.DBus.Properties"
    pure (record { this_interface = this; properties_interface = properties })

  -- `Connect`
  unfoldable pub connect : String → String → String → Exec St Generated
  connect destination object_path interface_name = do
    object ← get_proxy bus (create_proxy destination object_path) (text object_path)
    generated interface_name object

  unfoldable pub get_properties : Generated → Exec St Value
  get_properties p =
      call_method bus p.properties_interface "GetAll" (text p.this_interface.name ∷ [])

  unfoldable pub get_property : Generated → String → Exec St Value
  get_property p name =
      call_method bus p.properties_interface "Get" (text p.this_interface.name ∷ text name ∷ [])

  unfoldable pub set_property : Generated → String → Value → Exec St Value
  set_property p name value =
      call_method bus p.properties_interface "Set"
        (text p.this_interface.name ∷ text name ∷ value ∷ [])

  -- `.then((variant) => variant.value)`
  unfoldable pub get_property_value : Generated → String → Exec St Value
  get_property_value p name = do variant ← get_property p name; lift (property "value" variant)
