-- ===== src/Device/Config/Listing.antt =====
-- Which state the list of all configurations gives for which feature.
use rpi_nest_api.Prelude.{
  suc, String, false, ◌≡◌, ◌≢◌, refl, ap, some, List, [], ◌∷◌, ◌++◌, map, length, get_elem?,
}
use rpi_nest_api.Exec.{ok, err, bad_request}
use rpi_nest_api.Text.{join, trim, starts_with}
use rpi_nest_api.Shell.ChildProcess.{ChildProcess, settled, spawn_authorized}
use rpi_nest_api.Shell.RpiConfig.{
  RpiConfigurationState, rpi_config_executable, invalid_configuration, execute_command,
  get_supported_configurations, get_configuration_states,
}
use rpi_nest_api.Shell.RpiConfig.States.{Feature, state_of, answers, get_configuration_states_lem}
use rpi_nest_api.Device.Config.{DeviceConfigDto, entry, entries, get_all_supported_configurations}

-- Each id with its own state.
abbrev pub paired : List (String × Feature) → List DeviceConfigDto
paired [] = []
paired ((id, f) ∷ ps) = entry id (some (state_of f)) ∷ paired ps

abbrev pub ids_of : List (String × Feature) → List String
ids_of = map (λ p. p.0)

abbrev pub features_of : List (String × Feature) → List Feature
features_of = map (λ p. p.1)

get_elem-append :
    (xs ys : List RpiConfigurationState) (y : RpiConfigurationState)
    → get_elem? (xs ++ y ∷ ys) (length xs) ≡ some y
get_elem-append [] ys y = refl
get_elem-append (x ∷ xs) ys y = get_elem-append xs ys y

append_one :
    (xs ys : List RpiConfigurationState) (y : RpiConfigurationState)
    → (xs ++ y ∷ []) ++ ys ≡ xs ++ y ∷ ys
append_one [] ys y = refl
append_one (x ∷ xs) ys y = ap (λ t. x ∷ t) (append_one xs ys y)

length_one :
    (xs : List RpiConfigurationState) (y : RpiConfigurationState)
    → length (xs ++ y ∷ []) ≡ suc (length xs)
length_one [] y = refl
length_one (x ∷ xs) y = ap suc (length_one xs y)

entries-paired :
    (ps : List (String × Feature)) (seen : List RpiConfigurationState)
    → entries (ids_of ps) (length seen) (seen ++ map state_of (features_of ps)) ≡ paired ps
entries-paired [] seen = refl
entries-paired ((id, f) ∷ ps) seen = rw (
  get_elem-append seen (map state_of (features_of ps)) (state_of f),
  ← append_one seen (map state_of (features_of ps)) (state_of f),
  ← length_one seen (state_of f),
  entries-paired ps (seen ++ state_of f ∷ []),
)

-- If raspi-config names some features and answers the query for them with a number for each, the
-- list gives every feature in order with its own state.
pub get_all_supported_configurations_lem :
    (os : String → List String → ChildProcess) (id : String) (f : Feature)
    (ps : List (String × Feature)) (output : String)
    → get_supported_configurations os ≡ settled (ok (ids_of ((id, f) ∷ ps)))
    → join " " (ids_of ((id, f) ∷ ps)) ≢ ""
    → spawn_authorized os rpi_config_executable
        ("availstat" ∷ join " " (ids_of ((id, f) ∷ ps)) ∷ [])
      ≡ settled (ok output)
    → starts_with "Usage:" output ≡ false
    → trim output ≡ answers f (features_of ps)
    → get_all_supported_configurations os ≡ settled (ok (paired ((id, f) ∷ ps)))
unfolding get_all_supported_configurations
get_all_supported_configurations_lem os id f ps output supported filled spawned usage trimmed = rw (
  supported,
  get_configuration_states_lem os (ids_of ((id, f) ∷ ps)) output f (features_of ps) filled spawned
      usage trimmed,
  entries-paired ps (state_of f ∷ []),
)

-- If raspi-config names no features, the list is refused as a bad request, not empty.
pub no_features_refused :
    (os : String → List String → ChildProcess)
    → get_supported_configurations os ≡ settled (ok [])
    → get_all_supported_configurations os ≡ settled (err (bad_request invalid_configuration))
unfolding get_all_supported_configurations get_configuration_states execute_command join
no_features_refused os supported = rw supported
