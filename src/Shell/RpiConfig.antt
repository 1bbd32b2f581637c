-- ===== src/Shell/RpiConfig.antt =====
-- src/shell-command/command-services/rpi-nest-config-command.service.ts: the features of the device
-- that raspi-config switches.
use Prim.Native.String
use rpi_nest_api.Prelude.{
  String, Bool, true, false, Option, none, some, List, [], ◌∷◌, ◌++◌, ◌==◌, template, if◌then◌else◌,
}
use rpi_nest_api.Exec.{Void, Exception, Result, ok, err, error, bad_request}
use rpi_nest_api.Text.{split, join, trim, starts_with, second_part, without_char}
use rpi_nest_api.Shell.ChildProcess.{ChildProcess, Promise, pending, settled, spawn_authorized}
pub mod States

-- RpiConfigurationState
pub record RpiConfigurationState : Type 0 where
  pub is_available : Bool
  pub is_enabled : Bool
  pub value : Option String

-- RpiConfigCommand
pub data RpiConfigCommand : Type 0 where
  enable disable status available availstat : RpiConfigCommand

abbrev pub command_text : RpiConfigCommand → String
command_text enable = "enable"
command_text disable = "disable"
command_text status = "status"
command_text available = "available"
command_text availstat = "availstat"

abbrev pub rpi_config_executable : String
rpi_config_executable = "/usr/bin/raspi-config"

abbrev pub invalid_configuration : String
invalid_configuration = "Invalid configuration"

abbrev pub invalid_command : String
invalid_command = "Invalid command! raspi-config returned usage help message"

abbrev pub unexpected_value : String → String
unexpected_value result =
    template ("raspi-config availstat returned unexpected value " ∷ result ∷ [])

-- A continuation after an `await`.
abbrev pub and_then : {A B : Type 0} → Promise A → (A → Promise B) → Promise B
and_then pending f = pending
and_then (settled (ok a)) f = f a
and_then (settled (err e)) f = settled (err e)

abbrev pub state : Bool → Bool → RpiConfigurationState
state is_available is_enabled = record {
  is_available = is_available;
  is_enabled = is_enabled;
  value = none;
}

unfoldable pub parse_status : String → Result RpiConfigurationState
parse_status result =
    if result == "1"
    then ok (state true true)
    else if result == "0"
    then ok (state true false)
    else if result == "2"
    then ok (state false false)
    else err (error (unexpected_value result))

abbrev pub and_parsed :
    Result RpiConfigurationState
    → Result (List RpiConfigurationState)
    → Result (List RpiConfigurationState)
and_parsed (err e) _ = err e
and_parsed (ok x) (err e) = err e
and_parsed (ok x) (ok xs) = ok (x ∷ xs)

-- `results.map(parseStatus)`, which throws at the first result that is not expected
unfoldable pub parse_all : List String → Result (List RpiConfigurationState)
parse_all [] = ok []
parse_all (result ∷ results) = and_parsed (parse_status result) (parse_all results)

-- `if (value) args.push(value)`
abbrev pub with_value : Option String → List String → List String
with_value none args = args
with_value (some value) args = if value == "" then args else args ++ value ∷ []

-- `xs.filter((x) => x.length !== 0)`
abbrev pub filter_filled : List String → List String
filter_filled [] = []
filter_filled (x ∷ xs) = let rest = filter_filled xs in if x == "" then rest else x ∷ rest

-- The features in the usage text; none if there is no list of them.
abbrev pub features_of : Option String → List String
features_of none = []
features_of (some features) = filter_filled (split b' ' (without_char 10 features))

abbrev pub with_text : String → Result RpiConfigurationState → Result RpiConfigurationState
with_text text (ok x) = ok (record x { value = some text })
with_text text (err e) = err e

-- `result.length === 2` decides whether there is a value before the status.
unfoldable pub status_of : List String → Result RpiConfigurationState
unfolding parse_status
status_of [] = err (error (unexpected_value "undefined"))
status_of (value ∷ result ∷ []) = with_text value (parse_status result)
status_of (result ∷ _) = parse_status result

module _ (os : String → List String → ChildProcess) where
  abbrev pub usage_or_trimmed : String → Promise String
  usage_or_trimmed result =
      if starts_with "Usage:" result
      then settled (err (bad_request invalid_command))
      else settled (ok (trim result))

  unfoldable pub execute_command : RpiConfigCommand → String → Option String → Promise String
  execute_command command id value =
      if id == ""
      then settled (err (bad_request invalid_configuration))
      else and_then
          (spawn_authorized os rpi_config_executable
            (with_value value (command_text command ∷ id ∷ [])))
          usage_or_trimmed

  unfoldable pub get_supported_configurations : Promise (List String)
  get_supported_configurations =
      and_then (spawn_authorized os rpi_config_executable [])
        (λ result. settled (ok (features_of (second_part "Supported features: " result))))

  unfoldable pub enable_configuration : String → Option String → Promise Void
  enable_configuration id value = and_then (execute_command enable id value) (λ _. settled (ok tt))

  unfoldable pub disable_configuration : String → Promise Void
  disable_configuration id = and_then (execute_command disable id none) (λ _. settled (ok tt))

  unfoldable pub get_configuration_states : List String → Promise (List RpiConfigurationState)
  get_configuration_states ids =
      and_then (execute_command availstat (join " " ids) none)
        (λ result. settled (parse_all (split b' ' result)))

  unfoldable pub get_configuration_status : String → Promise RpiConfigurationState
  get_configuration_status id =
      and_then (execute_command status id none) (λ result. settled (status_of (split b' ' result)))
