-- ===== src/Dbus/Generated/TimeDate1.antt =====
-- src/dbus/interfaces/timedate1/timedate1.proxy.ts: its properties and methods. The properties are
-- unwrapped; a method asks nobody unless it is told to.
use rpi_nest_api.Prelude.{ℕ, String, Bool, false, Option, [], ◌∷◌, or_else}
use rpi_nest_api.Exec.{Exec}
use rpi_nest_api.Dbus.Variants.{Value, boolean, number, text}
use rpi_nest_api.Dbus.Proxy.{MessageBus, call_method}
use rpi_nest_api.Dbus.Generated as Generated
use rpi_nest_api.Dbus.Generated.{get_property_value}

module _ {St : Type 0} (bus : MessageBus St) where
  unfoldable pub connect : Option String → Exec St Generated.Generated
  connect object_path =
      Generated.connect bus "org.freedesktop.timedate1"
        (or_else object_path "/org/freedesktop/timedate1") "org.freedesktop.timedate1"

module _ {St : Type 0} (bus : MessageBus St) (proxy : Generated.Generated) where
  unfoldable pub timezone : Exec St Value
  timezone = get_property_value bus proxy "Timezone"

  unfoldable pub local_rtc : Exec St Value
  local_rtc = get_property_value bus proxy "LocalRTC"

  unfoldable pub can_ntp : Exec St Value
  can_ntp = get_property_value bus proxy "CanNTP"

  unfoldable pub ntp : Exec St Value
  ntp = get_property_value bus proxy "NTP"

  unfoldable pub ntp_synchronized : Exec St Value
  ntp_synchronized = get_property_value bus proxy "NTPSynchronized"

  unfoldable pub time_usec : Exec St Value
  time_usec = get_property_value bus proxy "TimeUSec"

  unfoldable pub rtc_time_usec : Exec St Value
  rtc_time_usec = get_property_value bus proxy "RTCTimeUSec"

  unfoldable pub set_time : ℕ → Bool → Option Bool → Exec St Value
  set_time usec_utc relative interactive =
      call_method bus proxy.this_interface "SetTime"
        (number usec_utc ∷ boolean relative ∷ boolean (or_else interactive false) ∷ [])

  unfoldable pub set_timezone : String → Option Bool → Exec St Value
  set_timezone timezone_name interactive =
      call_method bus proxy.this_interface "SetTimezone"
        (text timezone_name ∷ boolean (or_else interactive false) ∷ [])

  unfoldable pub set_local_rtc : Bool → Bool → Option Bool → Exec St Value
  set_local_rtc rtc fix_system interactive =
      call_method bus proxy.this_interface "SetLocalRTC"
        (boolean rtc ∷ boolean fix_system ∷ boolean (or_else interactive false) ∷ [])

  unfoldable pub set_ntp : Bool → Option Bool → Exec St Value
  set_ntp use_ntp interactive =
      call_method bus proxy.this_interface "SetNTP"
        (boolean use_ntp ∷ boolean (or_else interactive false) ∷ [])

  unfoldable pub list_timezones : Exec St Value
  list_timezones = call_method bus proxy.this_interface "ListTimezones" ([])
