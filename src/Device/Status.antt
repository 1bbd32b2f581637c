-- ===== src/Device/Status.antt =====
-- src/device/status: the status of the device, which six commands give, and the metrics made of it.
-- The clock, the parsing of numbers with a point, and the name of the host are parameters.
use rpi_nest_api.Prelude.{ℕ, String, Bool, Option, none, some, List, [], ◌∷◌}
use rpi_nest_api.Exec.{Void, Result, ok, err}
use rpi_nest_api.Shell.ChildProcess.{ChildProcess, Promise, pending, settled}
use rpi_nest_api.Shell.PiSerial.{get_serial}
use rpi_nest_api.Shell.Df.{DiskSpaceInformation, get_disk_space_information}
use rpi_nest_api.Shell.VcGenCmd.{get_temperature, get_core_voltage}
use rpi_nest_api.Shell.UpTime.{get_up_time}
use rpi_nest_api.Text.Number.{Integer}
pub mod Readings

pub record DeviceStatusCpuDto (Float : Type 0) : Type 0 where
  pub temperature : Float
  pub voltage : Float

pub record DeviceStatusDto (Float : Type 0) : Type 0 where
  pub serial_number : String
  pub uptime : Float
  pub hostname : String
  pub cpu : DeviceStatusCpuDto Float
  pub fs : DiskSpaceInformation

-- `Promise.all` of two promises: the first one of the list that is rejected rejects it.
abbrev pub both : {A B : Type 0} → Promise A → Promise B → Promise (A × B)
both (settled (ok a)) (settled (ok b)) = settled (ok (a, b))
both (settled (err e)) q = settled (err e)
both p (settled (err e)) = settled (err e)
both p q = pending

abbrev pub then_return : {A B : Type 0} → (A → B) → Promise A → Promise B
then_return f pending = pending
then_return f (settled (ok a)) = settled (ok (f a))
then_return f (settled (err e)) = settled (err e)

-- What Prometheus keeps: the labels and the gauges that were set last
pub record Registry (Float : Type 0) : Type 0 where
  pub labels : Option (String × String)
  pub cpu_temperature : Option Float
  pub cpu_voltage : Option Float
  pub fs_available : Option Integer
  pub fs_used : Option Integer
  pub dev_uptime : Option Float

abbrev pub Readings : Type 0 → Type 0
Readings Float = String × (Float × (String × (DiskSpaceInformation × (Float × Float))))

module _ {Float : Type 0} where
  abbrev pub status_of : Readings Float → DeviceStatusDto Float
  status_of (serial, (uptime, (name, (fs, (temperature, voltage))))) = record {
    serial_number = serial;
    uptime = uptime;
    hostname = name;
    cpu = record { temperature = temperature; voltage = voltage };
    fs = fs;
  }

  abbrev pub set_gauges : DeviceStatusDto Float → Registry Float
  set_gauges status = record {
    labels = some (status.hostname, status.serial_number);
    cpu_temperature = some status.cpu.temperature;
    cpu_voltage = some status.cpu.voltage;
    fs_available = some status.fs.available;
    fs_used = some status.fs.used;
    dev_uptime = some status.uptime;
  }

  -- The registry after the update, and whether it has ended
  abbrev pub updated :
      Promise (DeviceStatusDto Float) → Registry Float → Promise Void × Registry Float
  updated pending registry = (pending, registry)
  updated (settled (ok status)) registry = (settled (ok tt), set_gauges status)
  updated (settled (err e)) registry = (settled (err e), registry)

module _ {Float : Type 0} (os : String → List String → ChildProcess)
    (parse_float : String → Option Float) (seconds_since : String → Float) (hostname : String) where
  unfoldable pub readings : Promise (Readings Float)
  readings = both (get_serial os) (
      both (get_up_time os seconds_since) (
        both (settled (ok hostname)) (
          both (get_disk_space_information os)
            (both (get_temperature os parse_float) (get_core_voltage os parse_float)))))

  unfoldable pub get_current_status : Promise (DeviceStatusDto Float)
  get_current_status = then_return status_of readings

  unfoldable pub update_metrics : Registry Float → Promise Void × Registry Float
  update_metrics registry = updated get_current_status registry

  -- `getMetrics`, with the registry that is printed
  unfoldable pub get_metrics : Registry Float → Promise (Registry Float)
  get_metrics registry = then_return (λ _. (update_metrics registry).1) (update_metrics registry).0
