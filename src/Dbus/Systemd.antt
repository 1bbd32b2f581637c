-- ===== src/Dbus/Systemd.antt =====
-- src/dbus/interfaces/systemd1/systemd1.service.ts and src/dbus/interfaces/logind.service.ts:
-- starting units, reading their properties, and restarting the device.
use rpi_nest_api.Prelude.{false, String, Option, none, [], ◌∷◌, or_else}
use rpi_nest_api.Exec.{Void, Exec, pure, ◌>>=◌, ◌>>◌}
use rpi_nest_api.Dbus.Variants.{Value, undefined, text, boolean}
use rpi_nest_api.Dbus.Proxy.{
  MessageBus, DBusProxy, Interface, create_proxy, get_method_interface, get_properties_interface,
  call_method, get_all_unwrapped,
}

abbrev pub systemd : DBusProxy
systemd = create_proxy "org.freedesktop.systemd1" "/org/freedesktop/systemd1"

abbrev pub logind : DBusProxy
logind = create_proxy "org.freedesktop.login1" "/org/freedesktop/login1"

module _ {St : Type 0} (bus : MessageBus St) where
  unfoldable pub get_manager : Exec St Interface
  get_manager = get_method_interface bus systemd "org.freedesktop.systemd1.Manager" undefined

  -- The mode is 'fail' where none is given.
  unfoldable pub start_unit : String → Option String → Exec St Value
  start_unit unit_name mode = do
    manager ← get_manager
    call_method bus manager "StartUnit" (text unit_name ∷ text (or_else mode "fail") ∷ [])

  unfoldable pub restart_unit : String → Option String → Exec St Value
  restart_unit unit_name mode = do
    manager ← get_manager
    call_method bus manager "RestartUnit" (text unit_name ∷ text (or_else mode "fail") ∷ [])

  unfoldable pub load_unit : Value → Exec St Value
  load_unit unit_name = do
    manager ← get_manager
    call_method bus manager "LoadUnit" (unit_name ∷ [])

  unfoldable pub get_unit_properties : Value → Exec St Value
  get_unit_properties unit = do
    unit_path ← load_unit unit
    properties ← get_properties_interface bus systemd unit_path
    get_all_unwrapped bus properties "org.freedesktop.systemd1.Unit"

  -- `Reboot` of logind, which asks nobody.
  unfoldable pub reboot : Exec St Void
  reboot = do
    login_manager_methods ←
        get_method_interface bus logind "org.freedesktop.login1.Manager" undefined
    call_method bus login_manager_methods "Reboot" (boolean false ∷ [])
    pure tt

  -- src/dbus/cli/systemd1: the commands start-unit and show-unit, with what they print
  unfoldable pub run_start_unit : String → Exec St Value
  run_start_unit unit_name = start_unit unit_name none

  unfoldable pub run_show_unit : String → Exec St Value
  run_show_unit unit_name = do
    unit_result ← load_unit (text unit_name)
    get_unit_properties unit_result
