-- ===== src/Device/DateTime.antt =====
-- src/device/date-time/date-time.service.ts and
-- src/dbus/interfaces/timedate1/timedate1.service.ts. The device is a parameter: timedated, systemd
-- and the file that the service writes. Times are counted from 1970 on.
use Prim.Native.Char.{Char}
use Prim.Native.String
use rpi_nest_api.Prelude.{
  ℕ, ◌*◌, ◌/◌, String, Bool, true, false, ◌||◌, ◌≡◌, Option, none, some, List, [], ◌∷◌, ◌==◌,
  template, if◌then◌else◌,
}
use rpi_nest_api.Exec.{
  Void, Result, ok, err, Exec, bad_request, pure, throw, throw_if, lift, gets, ◌>>=◌, ◌>>◌,
}
use rpi_nest_api.Text.{is_code, join, starts_with, drop_as}
pub mod Settings
pub mod Server

-- The properties of timedated that are read.
pub record Properties : Type 0 where
  pub timezone : String
  pub ntp : Bool
  pub time_usec : ℕ

-- The device, whose calls may fail. A call that succeeds sets its own property or file and leaves
-- the others; the clock does not move between two calls.
pub record Machine (St : Type 0) : Type 0 where
  pub properties : St → Result Properties
  pub set_time : ℕ → Exec St Void
  pub set_timezone : String → Exec St Void
  pub set_ntp : Bool → Exec St Void
  pub restart_unit : String → Exec St Void
  pub read_file : St → Result String
  pub write_file : String → Exec St Void
  pub set_time_lem :
      (t : ℕ) (s s' : St) (p : Properties)
      → properties s ≡ ok p
      → set_time t s ≡ (ok tt, s')
      → properties s' ≡ ok (record p { time_usec = t })
  pub set_timezone_lem :
      (z : String) (s s' : St) (p : Properties)
      → properties s ≡ ok p
      → set_timezone z s ≡ (ok tt, s')
      → properties s' ≡ ok (record p { timezone = z })
  pub set_ntp_lem : (b : Bool) (s s' : St) → set_ntp b s ≡ (ok tt, s') → read_file s' ≡ read_file s
  pub restart_unit_lem :
      (u : String) (s s' : St) → restart_unit u s ≡ (ok tt, s') → read_file s' ≡ read_file s
  pub write_file_lem :
      (text : String) (s s' : St) → write_file text s ≡ (ok tt, s') → read_file s' ≡ ok text

-- DateTimeInfo, with the date in milliseconds
pub record DateTimeInfo : Type 0 where
  pub date : ℕ
  pub time_zone : String
  pub is_ntp_enabled : Bool

pub record DateTimeSettingsDto : Type 0 where
  pub time_zone : String
  pub date : String

pub record NtpSettingsDto : Type 0 where
  pub ntp_server : Option String
  pub is_ntp_enabled : Bool

pub record DateTimeInfoDto : Type 0 where
  pub time_zone : String
  pub date : String
  pub is_ntp_enabled : Bool
  pub ntp_server : Option String

abbrev pub default_time_server_pool : List String
default_time_server_pool =
    "0.pool.ntp.org" ∷ "1.pool.ntp.org" ∷ "2.pool.ntp.org" ∷ "3.pool.ntp.org" ∷ []

abbrev pub file_head : String
file_head = "# This file  is generated by rpi-nest-api. Do not modify manually!"

abbrev pub file_rest : List String
file_rest = "FallbackNTP=" ∷ join " " default_time_server_pool ∷ "\n  " ∷ []

-- TIMESYNCD_CONFIG.TEMPLATE
abbrev pub timesyncd_config : String → String
timesyncd_config ntp_address = template (
    "\n"
    ∷ file_head
    ∷ "\n"
    ∷ "[Time]"
    ∷ "\n"
    ∷ template ("NTP=" ∷ ntp_address ∷ [])
    ∷ "\n"
    ∷ file_rest)

-- The characters at which `^` and `$` see the end of a line, and which `.` does not match.
abbrev pub ends_line : Char → Bool
ends_line c = is_code 10 c || (is_code 13 c || (is_code 0x2028 c || is_code 0x2029 c))

abbrev pub onto_first : Char → List String → List String
onto_first c [] = String.◌∷◌ c "" ∷ []
onto_first c (t ∷ ts) = String.◌∷◌ c t ∷ ts

unfoldable pub lines : String → List String
lines String.[] = "" ∷ []
lines (String.◌∷◌ c s) = let rest = lines s in if ends_line c then "" ∷ rest else onto_first c rest

-- `match(/^NTP=(.*)$/m)`, and its group
unfoldable pub ntp_match : List String → Option String
ntp_match [] = none
ntp_match (line ∷ rest) =
    let found = ntp_match rest in
    if starts_with "NTP=" line then some (drop_as "NTP=" line) else found

abbrev pub address_in : Result String → Option String
address_in (ok text) = ntp_match (lines text)
address_in (err _) = none

module _ {St : Type 0} (machine : Machine St) where
  abbrev pub info_of : Properties → DateTimeInfo
  info_of p = record { date = p.time_usec / 1000; time_zone = p.timezone; is_ntp_enabled = p.ntp }

  unfoldable pub get_date_time_info : Exec St DateTimeInfo
  get_date_time_info = do properties ← λ s. (machine.properties s, s); pure (info_of properties)

  unfoldable pub set_system_date : ℕ → Exec St Void
  set_system_date date = machine.set_time (date * 1000)

  -- `getNtpAddressFromConfig`, which reports no error
  unfoldable pub get_ntp_address_from_config : Exec St (Option String)
  get_ntp_address_from_config s = (ok (address_in (machine.read_file s)), s)

  -- `toISOString` of a date is a parameter.
  unfoldable pub get_date_time : (ℕ → String) → Exec St DateTimeInfoDto
  get_date_time to_iso_string = do
    info ← get_date_time_info
    ntp_server ← get_ntp_address_from_config
    pure (record {
      time_zone = info.time_zone;
      date = to_iso_string info.date;
      is_ntp_enabled = info.is_ntp_enabled;
      ntp_server = ntp_server;
    })

  unfoldable pub write_ntp_address_to_config : String → Exec St Void
  write_ntp_address_to_config address = machine.write_file (timesyncd_config address)

  -- `new Date(text).getTime()` is a parameter.
  unfoldable pub set_date_time : (String → ℕ) → DateTimeSettingsDto → Exec St Void
  unfolding get_date_time_info set_system_date
  set_date_time parse_date dto = do
    current_settings ← get_date_time_info
    throw_if current_settings.is_ntp_enabled
        (bad_request "Cannot set system time while NTP synchronization is enabled")
    set_system_date (parse_date dto.date)
    machine.set_timezone dto.time_zone

  -- `if (ntpSettings.ntpServer)`
  abbrev pub use_server : Option String → Exec St Void
  use_server none = pure tt
  use_server (some server) =
      if server == ""
      then pure tt
      else (write_ntp_address_to_config server >> machine.restart_unit "systemd-timesyncd.service")

  unfoldable pub set_ntp : NtpSettingsDto → Exec St Void
  unfolding write_ntp_address_to_config
  set_ntp dto = do use_server dto.ntp_server; machine.set_ntp dto.is_ntp_enabled
