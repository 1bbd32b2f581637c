-- ===== src/Tests/TimeDate.antt =====
-- The calls of timedated's methods at a bus that keeps a list of them.
use rpi_nest_api.Prelude.{true, false, String, List, [], ◌∷◌, ◌≡◌, refl}
use rpi_nest_api.Exec.{ok, err, error}
use rpi_nest_api.Dbus.Variants.{Value, text, number, boolean, undefined}
use rpi_nest_api.Dbus.Proxy.{MessageBus, get_proxy, get_interface, call_method}
use rpi_nest_api.Dbus.Generated as Generated
use rpi_nest_api.Dbus.Generated.TimeDate1 as TimeDate1
use rpi_nest_api.Dbus.TimeDate.{
  get_all_timezones, set_system_date, set_timezone, enable_ntp, get_available_timezones,
}

-- The members that were called, with their arguments.
abbrev Log : Type 0
Log = List (String × List Value)

abbrev recording_bus : MessageBus Log
recording_bus = record {
  get_proxy_object = λ destination path s. (ok tt, s);
  get_interface = λ destination path name. ok tt;
  call = λ destination path name member arguments s. (ok undefined, (member, arguments) ∷ s);
}

-- A bus on which no interface is found.
abbrev empty_bus : MessageBus Log
empty_bus = record {
  get_proxy_object = λ destination path s. (ok tt, s);
  get_interface = λ destination path name. err (error "interface not found");
  call = λ destination path name member arguments s. (ok undefined, (member, arguments) ∷ s);
}

-- Nobody is asked, and the time is absolute and in microseconds.
set_system_date_call :
    set_system_date recording_bus 1600 []
    ≡ (ok tt, ("SetTime", number 1600000 ∷ boolean false ∷ boolean false ∷ []) ∷ [])
unfolding set_system_date TimeDate1.connect Generated.connect get_proxy Generated.generated
    get_interface TimeDate1.set_time call_method
set_system_date_call = refl

set_timezone_call :
    set_timezone recording_bus "Europe/Berlin" []
    ≡ (ok tt, ("SetTimezone", text "Europe/Berlin" ∷ boolean false ∷ []) ∷ [])
unfolding set_timezone TimeDate1.connect Generated.connect get_proxy Generated.generated
    get_interface TimeDate1.set_timezone call_method
set_timezone_call = refl

enable_ntp_call :
    enable_ntp recording_bus true [] ≡ (ok tt, ("SetNTP", boolean true ∷ boolean false ∷ []) ∷ [])
unfolding enable_ntp TimeDate1.connect Generated.connect get_proxy Generated.generated get_interface
    TimeDate1.set_ntp call_method
enable_ntp_call = refl

get_available_timezones_call :
    get_available_timezones recording_bus [] ≡ (ok undefined, ("ListTimezones", []) ∷ [])
unfolding get_available_timezones get_all_timezones TimeDate1.connect Generated.connect get_proxy
    Generated.generated get_interface TimeDate1.list_timezones call_method
get_available_timezones_call = refl

-- Without the interface there is an error, and no call.
set_timezone_of_nothing :
    set_timezone empty_bus "Europe/Berlin" [] ≡ (err (error "interface not found"), [])
unfolding set_timezone TimeDate1.connect Generated.connect get_proxy Generated.generated
    get_interface
set_timezone_of_nothing = refl
