-- ===== src/Tests/Clock.antt =====
-- Runs of the theorems about date and time, with a device that accepts every call.
use rpi_nest_api.Prelude.{ℕ, String, Bool, true, false, ◌≡◌, refl, sym, ap, ◌∙◌, some}
use rpi_nest_api.Exec.{Void, Result, ok, err, error, Exec}
use rpi_nest_api.Device.DateTime.{
  Properties, Machine, DateTimeSettingsDto, get_date_time_info, set_date_time,
  get_ntp_address_from_config, set_ntp,
}
use rpi_nest_api.Device.DateTime.Settings.{set_date_time-get_date_time_info}
use rpi_nest_api.Device.DateTime.Server.{is_line-IsLine, set_ntp-get_ntp_address}

abbrev State : Type 0
State = Properties × Result String

abbrev with_time : ℕ → Result Properties → Result Properties
with_time t (ok p) = ok (record p { time_usec = t })
with_time t (err e) = err e

abbrev with_timezone : String → Result Properties → Result Properties
with_timezone z (ok p) = ok (record p { timezone = z })
with_timezone z (err e) = err e

abbrev read_properties : State → Result Properties
read_properties (p, _) = ok p

abbrev put_time : ℕ → Exec State Void
put_time t (p, file) = (ok tt, (record p { time_usec = t }, file))

abbrev put_timezone : String → Exec State Void
put_timezone z (p, file) = (ok tt, (record p { timezone = z }, file))

abbrev put_ntp : Bool → Exec State Void
put_ntp b (p, file) = (ok tt, (record p { ntp = b }, file))

abbrev put_file : String → Exec State Void
put_file text (p, _) = (ok tt, (p, ok text))

abbrev restart : String → Exec State Void
restart u s = (ok tt, s)

pub put_time_lem :
    (t : ℕ) (s s' : State) (p : Properties)
    → read_properties s ≡ ok p
    → put_time t s ≡ (ok tt, s')
    → read_properties s' ≡ ok (record p { time_usec = t })
put_time_lem t s s' p e h = sym (ap (λ r. read_properties r.1) h) ∙ ap (with_time t) e

pub put_timezone_lem :
    (z : String) (s s' : State) (p : Properties)
    → read_properties s ≡ ok p
    → put_timezone z s ≡ (ok tt, s')
    → read_properties s' ≡ ok (record p { timezone = z })
put_timezone_lem z s s' p e h = sym (ap (λ r. read_properties r.1) h) ∙ ap (with_timezone z) e

abbrev pub clock : Machine State
clock = record {
  properties = read_properties;
  set_time = put_time;
  set_timezone = put_timezone;
  set_ntp = put_ntp;
  restart_unit = restart;
  read_file = λ s. s.1;
  write_file = put_file;
  set_time_lem = put_time_lem;
  set_timezone_lem = put_timezone_lem;
  set_ntp_lem = λ b s s' h. sym (ap (λ r. r.1.1) h);
  restart_unit_lem = λ u s s' h. sym (ap (λ r. r.1.1) h);
  write_file_lem = λ text s s' h. sym (ap (λ r. r.1.1) h);
}

abbrev start : State
start = (record { timezone = "UTC"; ntp = false; time_usec = 5000 }, err (error "ENOENT"))

abbrev to_berlin : DateTimeSettingsDto
to_berlin = record { time_zone = "Europe/Berlin"; date = "1970-01-01T00:00:07Z" }

abbrev parse_date : String → ℕ
parse_date text = 7000

abbrev set_clock : State
set_clock = (record { timezone = "Europe/Berlin"; ntp = false; time_usec = 7000000 }, start.1)

set_date_time_run :
    (false ≡ false)
    × (get_date_time_info clock set_clock ≡ (
      ok (record { date = 7000; time_zone = "Europe/Berlin"; is_ntp_enabled = false }),
      set_clock,
    ))
unfolding set_date_time
set_date_time_run =
    set_date_time-get_date_time_info clock parse_date to_berlin start set_clock start.0 refl refl

abbrev served : State
served = (set_ntp clock (record { ntp_server = some "ntp.local"; is_ntp_enabled = true }) start).1

set_ntp-get_ntp_address_example :
    get_ntp_address_from_config clock served ≡ (ok (some "ntp.local"), served)
unfolding set_ntp
set_ntp-get_ntp_address_example =
    set_ntp-get_ntp_address clock "ntp.local" true start served (λ e. cc)
      (is_line-IsLine "ntp.local" refl) refl
