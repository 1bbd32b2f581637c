-- ===== src/Tests/Reports.antt =====
-- The property of reports at a unit that runs for two seconds.
use rpi_nest_api.Prelude.{
  ◌<◌, Bool, true, none, false, ℕ, zero, suc, String, some, ◌≡◌, refl, ◌==◌, arith, if◌then◌else◌,
}
use rpi_nest_api.Exec.{ok, Exec, pure, throw, error}
use rpi_nest_api.Dbus.Variants.{Value, text, unwrap_variant_deep, object, variant, end, field}
use rpi_nest_api.Dbus.Proxy.{
  get_method_interface, get_proxy, get_interface, call_method, get_properties_interface,
  get_all_unwrapped,
}
use rpi_nest_api.Dbus.Systemd.{get_unit_properties, load_unit, start_unit, get_manager}
use rpi_nest_api.Device.Reports.{
  Host, create_report_stream, is_report_service_running, is_running, poll,
}
use rpi_nest_api.Exec.Success.{ok-inj}
use rpi_nest_api.Device.Reports.{systemd_service_name}
use rpi_nest_api.Device.Reports.Ending.{Ends, create_report_stream-Ends}
use rpi_nest_api.Device.Reports.Polling.{Stops, Reported, create_report_stream_iff}

-- The state is the number of seconds that the unit still runs.
abbrev unit_properties : ℕ → Value
unit_properties zero = object (
    field "ActiveState" (variant "s" (text "inactive"))
      (field "SubState" (variant "s" (text "dead")) end))
unit_properties (suc n) = object (
    field "ActiveState" (variant "s" (text "active"))
      (field "SubState" (variant "s" (text "running")) end))

abbrev sample_call : String → Exec ℕ Value
sample_call member n =
    if member == "StartUnit"
    then (ok (text "/job"), 2)
    else (ok (if member == "GetAll" then unit_properties n else text "/unit"), n)

abbrev one_less : ℕ → ℕ
one_less zero = zero
one_less (suc n) = n

abbrev sample_host : Host ℕ
sample_host = record {
  bus = record {
    get_proxy_object = λ destination path. pure tt;
    get_interface = λ destination path name. ok tt;
    call = λ destination path name member arguments. sample_call member;
  };
  mkdir = λ path. throw (error "EROFS");
  rm = λ path. pure tt;
  wait = λ milliseconds n. one_less n;
}

sample_Reported : Reported sample_host "/data" 1 0 0
unfolding is_report_service_running is_running poll get_unit_properties load_unit start_unit
    get_manager get_method_interface get_properties_interface get_proxy get_interface
    get_all_unwrapped call_method unwrap_variant_deep
sample_Reported = record {
  idle = 0;
  job = text "/job";
  started = 2;
  is_idle = refl;
  starts = refl;
  stops = Stops.still_running {u = 1} refl (Stops.stopped refl);
}

create_report_stream_iff_example :
    create_report_stream sample_host 5 "/data" 0
    ≡ (ok (some (record { packed = "/data/rpi-nest-sos-report" })), 0)
create_report_stream_iff_example =
    (create_report_stream_iff sample_host 5 "/data" 0 0).1 (1, omega arith, sample_Reported)

false-true : Path Bool false true → ⊥
false-true h = cc

abbrev seconds : ℕ → ℕ
seconds n = n

sample_decreases : (s u : ℕ) → poll sample_host s ≡ (ok true, u) → u < s
unfolding poll is_report_service_running is_running get_unit_properties load_unit get_manager
    get_method_interface get_properties_interface get_proxy get_interface get_all_unwrapped
    call_method unwrap_variant_deep
sample_decreases zero u h = absurd (false-true (ok-inj h).0)
sample_decreases (suc zero) u h = absurd (false-true (ok-inj h).0)
sample_decreases (suc (suc n)) u h = omega (arith, (ok-inj h).1)

sample_started :
    (v u : ℕ) (job : Value)
    → start_unit sample_host.bus systemd_service_name none v ≡ (ok job, u)
    → u < 5
unfolding start_unit get_manager get_method_interface get_proxy get_interface call_method
sample_started v u job h = omega (arith, (ok-inj h).1)

create_report_stream-Ends_run :
    Ends
      (some (record { packed = "/data/rpi-nest-sos-report" }))
      (create_report_stream sample_host 5 "/data" 0)
create_report_stream-Ends_run =
    create_report_stream-Ends sample_host seconds (record { decreases = sample_decreases }) 5
      "/data" 0 sample_started
