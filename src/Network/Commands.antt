-- ===== src/Network/Commands.antt =====
-- src/dbus/cli/network-manager: the commands set-dhcp and show-all-devices, the latter with the
-- devices that it prints.
use rpi_nest_api.Prelude.{String, Bool, List, none, some}
use rpi_nest_api.Exec.{Exec}
use rpi_nest_api.Dbus.Variants.{Value, Items}
use rpi_nest_api.Dbus.Proxy.{MessageBus}
use rpi_nest_api.Network.Adapter.{UpdateIpSettings, auto}
use rpi_nest_api.Network.Settings.{
  Daemon, Calls, UpdatableSettings, update_active_connection_of_device,
}
use rpi_nest_api.Network.Devices.{get_all_devices}

abbrev pub automatic_settings : UpdateIpSettings
automatic_settings = record {
  address_data = none;
  gateway = none;
  method = some auto;
  dns_data = none;
  dns_search = none;
}

-- `setDhcp`
abbrev pub set_dhcp : UpdatableSettings
set_dhcp = record { ipv4 = some automatic_settings; ipv6 = none }

module _ {St : Type 0} (is_match : Value → Value → Bool) (bus : MessageBus St) where
  -- `JSON.parse` has read the parameters.
  unfoldable pub run_show_all_devices : List Value → Exec St Items
  run_show_all_devices parsed_params = get_all_devices is_match bus parsed_params

module _ {R : Type 0} (daemon : Daemon R) where
  unfoldable pub run_set_dhcp : String → Exec (Calls R) String
  run_set_dhcp interface_name = update_active_connection_of_device daemon interface_name set_dhcp
