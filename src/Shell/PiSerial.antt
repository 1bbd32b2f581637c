-- ===== src/Shell/PiSerial.antt =====
-- src/shell-command/command-services/pi-serial-command.service.ts
use rpi_nest_api.Prelude.{String, List, []}
use rpi_nest_api.Exec.{ok, err}
use rpi_nest_api.Text.{trim}
use rpi_nest_api.Shell.ChildProcess.{ChildProcess, Promise, pending, settled, spawn_authorized}

-- `return output.trim()` after an `await`
abbrev pub trimmed : Promise String → Promise String
trimmed pending = pending
trimmed (settled (ok output)) = settled (ok (trim output))
trimmed (settled (err e)) = settled (err e)

abbrev pub serial_command : String
serial_command = "cat /sys/firmware/devicetree/base/serial-number"

module _ (os : String → List String → ChildProcess) where
  unfoldable pub get_default_password : Promise String
  unfolding spawn_authorized trim
  get_default_password = trimmed (spawn_authorized os serial_command [])

  unfoldable pub get_serial : Promise String
  unfolding spawn_authorized trim
  get_serial = trimmed (spawn_authorized os serial_command [])
