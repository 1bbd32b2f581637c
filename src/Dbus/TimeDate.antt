-- ===== src/Dbus/TimeDate.antt =====
-- src/dbus/interfaces/timedate1/timedate1.service.ts over the bus: the methods that call a method of
-- timedated, and getAvailableTimezones of src/device/date-time/date-time.service.ts.
use rpi_nest_api.Prelude.{ℕ, ◌*◌, String, Bool, false, none}
use rpi_nest_api.Exec.{Void, Exec, pure, ◌>>=◌, ◌>>◌}
use rpi_nest_api.Dbus.Variants.{Value}
use rpi_nest_api.Dbus.Proxy.{MessageBus}
use rpi_nest_api.Dbus.Generated.TimeDate1 as TimeDate1

module _ {St : Type 0} (bus : MessageBus St) where
  -- The date is in milliseconds, the time in microseconds.
  unfoldable pub set_system_date : ℕ → Exec St Void
  set_system_date date = do
    time_date_proxy ← TimeDate1.connect bus none
    TimeDate1.set_time bus time_date_proxy (date * 1000) false none
    pure tt

  unfoldable pub set_timezone : String → Exec St Void
  set_timezone timezone = do
    time_date_proxy ← TimeDate1.connect bus none
    TimeDate1.set_timezone bus time_date_proxy timezone none
    pure tt

  unfoldable pub get_all_timezones : Exec St Value
  get_all_timezones = do
    time_date_proxy ← TimeDate1.connect bus none
    TimeDate1.list_timezones bus time_date_proxy

  unfoldable pub enable_ntp : Bool → Exec St Void
  enable_ntp is_ntp_enabled = do
    time_date_proxy ← TimeDate1.connect bus none
    TimeDate1.set_ntp bus time_date_proxy is_ntp_enabled none
    pure tt

  unfoldable pub get_available_timezones : Exec St Value
  get_available_timezones = get_all_timezones
