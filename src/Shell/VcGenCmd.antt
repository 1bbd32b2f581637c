-- ===== src/Shell/VcGenCmd.antt =====
-- src/shell-command/command-services/vcgencmd-command.service.ts. Numbers with a point are a
-- parameter, and so is `Number.parseFloat`, for which `none` is NaN.
use rpi_nest_api.Prelude.{String, Option, none, some, List, [], ◌∷◌, or_else}
use rpi_nest_api.Exec.{Result, ok, err, error}
use rpi_nest_api.Text.Number.{match_decimal}
use rpi_nest_api.Shell.ChildProcess.{ChildProcess, Promise, settled, spawn_authorized}
use rpi_nest_api.Shell.RpiConfig.{and_then}

abbrev pub vcgencmd_executable : String
vcgencmd_executable = "/usr/bin/vcgencmd"

-- VCGENCMD_ARGUMENTS
abbrev pub measure_temperature : String
measure_temperature = "measure_temp"

abbrev pub measure_core_voltage : String
measure_core_voltage = "measure_volts core"

module _ {Float : Type 0} (os : String → List String → ChildProcess)
    (parse_float : String → Option Float) where
  abbrev pub number_or_throw : Option Float → Result Float
  number_or_throw none = err (error "vcgencmd returned unparsable result")
  number_or_throw (some n) = ok n

  unfoldable pub parse_result : String → Result Float
  parse_result input = number_or_throw (parse_float (or_else (match_decimal input) ""))

  unfoldable pub measure : String → Promise Float
  measure argument =
      and_then (spawn_authorized os vcgencmd_executable (argument ∷ []))
        (λ result. settled (parse_result result))

  unfoldable pub get_temperature : Promise Float
  get_temperature = measure measure_temperature

  unfoldable pub get_core_voltage : Promise Float
  get_core_voltage = measure measure_core_voltage
