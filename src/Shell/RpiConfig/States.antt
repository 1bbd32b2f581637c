-- ===== src/Shell/RpiConfig/States.antt =====
-- What the service makes of the numbers that raspi-config prints.
use Prim.Native.String
use text.Mathlib.TextLemmas.{nil-append, cons-append}
use rpi_nest_api.Prelude.{
  String, true, false, ◌≡◌, ◌≢◌, refl, ap, ◌∙◌, List, [], ◌∷◌, map, eq-false_of_ne,
}
use rpi_nest_api.Exec.{ok}
use rpi_nest_api.Text.{split, join, trim, starts_with}
use rpi_nest_api.Text.Split.{Lacks, split_whole, split-append}
use rpi_nest_api.Shell.ChildProcess.{ChildProcess, settled, spawn_authorized}
use rpi_nest_api.Shell.RpiConfig.{
  RpiConfigurationState, state, parse_status, parse_all, execute_command, get_configuration_states,
  rpi_config_executable,
}

-- The three answers for a feature.
pub data Feature : Type 0 where
  disabled enabled not_available : Feature

abbrev pub number_text : Feature → String
number_text disabled = "0"
number_text enabled = "1"
number_text not_available = "2"

abbrev pub state_of : Feature → RpiConfigurationState
state_of disabled = state true false
state_of enabled = state true true
state_of not_available = state false false

parse-number_text : (f : Feature) → parse_status (number_text f) ≡ ok (state_of f)
unfolding parse_status
parse-number_text disabled = refl
parse-number_text enabled = refl
parse-number_text not_available = refl

Lacks-number_text : (f : Feature) → Lacks b' ' (number_text f)
Lacks-number_text disabled = (refl, tt)
Lacks-number_text enabled = (refl, tt)
Lacks-number_text not_available = (refl, tt)

-- The answers for some features on one line.
abbrev pub answers : Feature → List Feature → String
answers f fs = join " " (map number_text (f ∷ fs))

space_before : (t : String) → String.◌++◌ " " t ≡ String.◌∷◌ " " t
space_before t = cons-append " " "" t ∙ ap (λ s. String.◌∷◌ " " s) (nil-append t)

parse-answers :
    (f : Feature) (fs : List Feature)
    → parse_all (split b' ' (answers f fs)) ≡ ok (map state_of (f ∷ fs))
unfolding parse_all join
parse-answers f [] =
    rw (split_whole b' ' (number_text f) (Lacks-number_text f), parse-number_text f)
parse-answers f (g ∷ fs) = rw (
  space_before (answers g fs),
  split-append b' ' (number_text f) " " (answers g fs) (Lacks-number_text f) refl,
  parse-number_text f,
  parse-answers g fs,
)

-- If raspi-config answers a query for some features with a number for each, the service reads off
-- the state of each in order.
pub get_configuration_states_lem :
    (os : String → List String → ChildProcess) (ids : List String) (output : String) (f : Feature)
    (fs : List Feature)
    → join " " ids ≢ ""
    → spawn_authorized os rpi_config_executable ("availstat" ∷ join " " ids ∷ [])
      ≡ settled (ok output)
    → starts_with "Usage:" output ≡ false
    → trim output ≡ answers f fs
    → get_configuration_states os ids ≡ settled (ok (map state_of (f ∷ fs)))
unfolding get_configuration_states execute_command
get_configuration_states_lem os ids output f fs filled spawned usage trimmed =
    rw (eq-false_of_ne (join " " ids) "" filled, spawned, usage, trimmed, parse-answers f fs)
