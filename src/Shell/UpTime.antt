-- ===== src/Shell/UpTime.antt =====
-- src/shell-command/command-services/uptime-command.service.ts. The seconds from the date of a text
-- to now are a parameter; a text that is no date gives NaN there and throws nothing, so that the
-- `catch` of the source is never reached.
use rpi_nest_api.Prelude.{String, List, [], ◌∷◌}
use rpi_nest_api.Exec.{ok}
use rpi_nest_api.Shell.ChildProcess.{ChildProcess, Promise, settled, spawn}
use rpi_nest_api.Shell.RpiConfig.{and_then}

abbrev pub uptime_executable : String
uptime_executable = "/usr/bin/uptime"

module _ {Float : Type 0} (os : String → List String → ChildProcess)
    (seconds_since : String → Float) where
  unfoldable pub get_up_time : Promise Float
  get_up_time =
      and_then (spawn os uptime_executable ("-s" ∷ []))
        (λ output. settled (ok (seconds_since output)))
