-- ===== src/Device/Status/Readings.antt =====
-- When the status can be read.
use rpi_nest_api.Prelude.{String, Option, some, List, ◌≡◌, refl, ap, subst, ◌∙◌, ◌↔◌}
use rpi_nest_api.Exec.{Exception, ok, err}
use rpi_nest_api.Shell.ChildProcess.{ChildProcess, Promise, pending, settled}
use rpi_nest_api.Shell.PiSerial.{get_serial}
use rpi_nest_api.Shell.Df.{get_disk_space_information}
use rpi_nest_api.Shell.VcGenCmd.{get_temperature, get_core_voltage}
use rpi_nest_api.Shell.UpTime.{get_up_time}
use rpi_nest_api.Device.Status.{
  Readings, status_of, updated, set_gauges, DeviceStatusDto, Registry, both, then_return, readings,
  get_current_status, get_metrics, update_metrics,
}

settled-inj : {A : Type 0} {a b : A} → Path (Promise A) (settled (ok a)) (settled (ok b)) → a ≡ b
settled-inj h = cc

pending-settled : {A : Type 0} {a : A} → Path (Promise A) pending (settled (ok a)) → ⊥
pending-settled h = cc

err-settled :
    {A : Type 0} {e : Exception} {a : A} → Path (Promise A) (settled (err e)) (settled (ok a)) → ⊥
err-settled h = cc

both_iff :
    {A B : Type 0} (p : Promise A) (q : Promise B) (a : A) (b : B)
    → (both p q ≡ settled (ok (a, b))) ↔ ((p ≡ settled (ok a)) × (q ≡ settled (ok b)))
both_iff (settled (ok x)) (settled (ok y)) a b = (
  λ h. (ap (λ z. settled (ok z.0)) (settled-inj h), ap (λ z. settled (ok z.1)) (settled-inj h)),
  λ h.
      ap (λ z. settled (ok (z, y))) (settled-inj h.0)
      ∙ ap (λ z. settled (ok (a, z))) (settled-inj h.1),
)
both_iff (settled (ok x)) pending a b =
    (λ h. absurd (pending-settled h), λ h. absurd (pending-settled h.1))
both_iff (settled (ok x)) (settled (err e)) a b =
    (λ h. absurd (err-settled h), λ h. absurd (err-settled h.1))
both_iff (settled (err e)) q a b = (λ h. absurd (err-settled h), λ h. absurd (err-settled h.0))
both_iff pending (settled (err e)) a b =
    (λ h. absurd (err-settled h), λ h. absurd (pending-settled h.0))
both_iff pending (settled (ok y)) a b =
    (λ h. absurd (pending-settled h), λ h. absurd (pending-settled h.0))
both_iff pending pending a b = (λ h. absurd (pending-settled h), λ h. absurd (pending-settled h.0))

then_return_iff :
    {A B : Type 0} (f : A → B) (p : Promise A) (b : B)
    → (then_return f p ≡ settled (ok b)) ↔ ((a : A) × (p ≡ settled (ok a)) × (f a ≡ b))
then_return_iff f pending b = (λ h. absurd (pending-settled h), λ h. absurd (pending-settled h.1))
then_return_iff f (settled (err e)) b = (λ h. absurd (err-settled h), λ h. absurd (err-settled h.1))
then_return_iff f (settled (ok x)) b =
    (λ h. (x, refl, settled-inj h), λ h. ap (λ z. settled (ok z)) (ap f (settled-inj h.1) ∙ h.2))

metrics_of :
    {Float : Type 0} (p : Promise (DeviceStatusDto Float)) (before after : Registry Float)
    → then_return (λ _. (updated p before).1) (updated p before).0 ≡ settled (ok after)
    → (d : DeviceStatusDto Float) × (p ≡ settled (ok d)) × (set_gauges d ≡ after)
metrics_of pending before after h = absurd (pending-settled h)
metrics_of (settled (err e)) before after h = absurd (err-settled h)
metrics_of (settled (ok d)) before after h = (d, refl, settled-inj h)

-- Each gauge has the reading that it is named after.
pub record Shows {Float : Type 0} (d : DeviceStatusDto Float) (r : Registry Float) : Type 0 where
  pub labels : r.labels ≡ some (d.hostname, d.serial_number)
  pub cpu_temperature : r.cpu_temperature ≡ some d.cpu.temperature
  pub cpu_voltage : r.cpu_voltage ≡ some d.cpu.voltage
  pub fs_available : r.fs_available ≡ some d.fs.available
  pub fs_used : r.fs_used ≡ some d.fs.used
  pub dev_uptime : r.dev_uptime ≡ some d.uptime

set_gauges-Shows : {Float : Type 0} (d : DeviceStatusDto Float) → Shows d (set_gauges d)
set_gauges-Shows d = record {
  labels = refl;
  cpu_temperature = refl;
  cpu_voltage = refl;
  fs_available = refl;
  fs_used = refl;
  dev_uptime = refl;
}

Shows-set_gauges :
    {Float : Type 0} (d : DeviceStatusDto Float) (r : Registry Float) → Shows d r → set_gauges d ≡ r
Shows-set_gauges d r h =
    cc (h.labels, h.cpu_temperature, h.cpu_voltage, h.fs_available, h.fs_used, h.dev_uptime)

module _ {Float : Type 0} (os : String → List String → ChildProcess)
    (parse_float : String → Option Float) (seconds_since : String → Float) (hostname : String) where
  -- All six readings succeed, with the values of the status.
  pub record IsRead (d : DeviceStatusDto Float) : Type 0 where
    pub serial_number : get_serial os ≡ settled (ok d.serial_number)
    pub uptime : get_up_time os seconds_since ≡ settled (ok d.uptime)
    pub host : hostname ≡ d.hostname
    pub fs : get_disk_space_information os ≡ settled (ok d.fs)
    pub temperature : get_temperature os parse_float ≡ settled (ok d.cpu.temperature)
    pub voltage : get_core_voltage os parse_float ≡ settled (ok d.cpu.voltage)

  readings-IsRead :
      (r : Readings Float)
      → readings os parse_float seconds_since hostname ≡ settled (ok r)
      → IsRead (status_of r)
  unfolding readings
  readings-IsRead (serial, (uptime, (name, (fs, (temperature, voltage))))) h =
      let (p0, q0) = (both_iff _ _ _ _).0 h in
      let (p1, q1) = (both_iff _ _ _ _).0 q0 in
      let (p2, q2) = (both_iff _ _ _ _).0 q1 in
      let (p3, q3) = (both_iff _ _ _ _).0 q2 in
      let (p4, p5) = (both_iff _ _ _ _).0 q3 in
      record {
        serial_number = p0;
        uptime = p1;
        host = settled-inj p2;
        fs = p3;
        temperature = p4;
        voltage = p5;
      }

  read-readings :
      (d : DeviceStatusDto Float)
      → IsRead d
      → readings os parse_float seconds_since hostname
        ≡ settled (
            ok (
              d.serial_number,
              (d.uptime, (d.hostname, (d.fs, (d.cpu.temperature, d.cpu.voltage)))),
            ))
  unfolding readings
  read-readings d r = rw (r.serial_number, r.uptime, r.host, r.fs, r.temperature, r.voltage)

  pub get_current_status_iff :
      (d : DeviceStatusDto Float)
      → (get_current_status os parse_float seconds_since hostname ≡ settled (ok d)) ↔ IsRead d
  unfolding get_current_status
  get_current_status_iff d = (
    λ h. let (r, e, same) = (then_return_iff _ _ d).0 h in subst IsRead same (readings-IsRead r e),
    λ h. (then_return_iff _ _ d).1 (_, read-readings d h, refl),
  )

  -- The metrics are printed exactly if all six readings succeed, and then each gauge and label has
  -- the value of its own reading, whatever it had before: the labels the name of the host and the
  -- serial number, and the gauges the temperature, the voltage, the available and the used space,
  -- and the uptime.
  pub get_metrics_iff :
      (before after : Registry Float)
      → (get_metrics os parse_float seconds_since hostname before ≡ settled (ok after))
        ↔ ((d : DeviceStatusDto Float) × IsRead d × Shows d after)
  unfolding get_metrics update_metrics
  get_metrics_iff before after = (
    λ h.
        let (d, p, e) = metrics_of _ before after h in
        (d, (get_current_status_iff d).0 p, subst (Shows d) e (set_gauges-Shows d)),
    λ (d, r, shows). rw ((get_current_status_iff d).1 r, Shows-set_gauges d after shows),
  )
