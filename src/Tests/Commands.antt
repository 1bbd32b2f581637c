-- ===== src/Tests/Commands.antt =====
-- Runs of the theorems about raspi-config and dpkg-query, with programs that print fixed texts.
use rpi_nest_api.Prelude.{
  ℕ, Bool, Bool-cases, inl, inr, String, true, false, ◌≡◌, refl, some, List, [], ◌∷◌, ◌++◌, map,
  if◌then◌else◌,
}
use rpi_nest_api.Exec.{ok, err, bad_request}
use rpi_nest_api.Text.Split.{Lacks}
use rpi_nest_api.Text.{
  is_code, before, drop_as, split, join, trim, starts_with, second_part, without_char,
}
use rpi_nest_api.Tests.Bytes.{printing, buffer, ascii}
use rpi_nest_api.Shell.ChildProcess.{ChildProcess, stdout_data, close, settled, spawn_authorized}
use rpi_nest_api.Shell.Dpkg.{get_installed_packages}
use rpi_nest_api.Shell.Dpkg.Listing.{
  IsPlain, Package, HasPlainFields, info_of, nameless, get_installed_packages_lem,
}
use rpi_nest_api.Shell.RpiConfig.{
  get_supported_configurations, get_configuration_states, invalid_configuration,
}
use rpi_nest_api.Shell.RpiConfig.States.{
  Feature, enabled, not_available, state_of, get_configuration_states_lem,
}
use rpi_nest_api.Device.Config.{get_all_supported_configurations}
use rpi_nest_api.Device.Config.Listing.{
  paired, get_all_supported_configurations_lem, no_features_refused,
}

abbrev curl : Package
curl = record {
  package_name = "curl";
  version = "7.88";
  architecture = "arm64";
  section = "web";
  summary = "transfer tool";
  homepage = "https://curl.se";
}

abbrev dpkg : String → List String → ChildProcess
dpkg command args = record {
  has_stdout = true;
  has_stderr = true;
  events =
      stdout_data (buffer "curl|7.88|arm64|we")
      ∷ stdout_data (buffer "b|transfer tool|https://curl.se\n")
      ∷ close (some 0)
      ∷ [];
}

-- The same as a test, for texts of which every character is known.
abbrev lacks : ℕ → String → Bool
lacks k String.[] = true
lacks k (String.◌∷◌ c s) = let rest = lacks k s in if is_code k c then false else rest

lacks-Lacks : (k : ℕ) (s : String) → lacks k s ≡ true → Lacks k s
lacks-Lacks k String.[] h = tt
lacks-Lacks k (String.◌∷◌ c s) h = elim (Bool-cases (is_code k c)) [
  | inl e ↦ cc
  | inr e ↦ (e, lacks-Lacks k s (rw e at h))
]

lacks-IsPlain : (s : String) → lacks b'|' s ≡ true → lacks 10 s ≡ true → IsPlain s
lacks-IsPlain s bars ends = (lacks-Lacks b'|' s bars, lacks-Lacks 10 s ends)

curl-HasPlainFields : HasPlainFields curl
curl-HasPlainFields = record {
  package_name = lacks-IsPlain curl.package_name refl refl;
  version = lacks-IsPlain curl.version refl refl;
  architecture = lacks-IsPlain curl.architecture refl refl;
  section = lacks-IsPlain curl.section refl refl;
  summary = lacks-IsPlain curl.summary refl refl;
  homepage = lacks-IsPlain curl.homepage refl refl;
}

get_installed_packages_lem_example :
    get_installed_packages dpkg ≡ settled (ok (map info_of (curl ∷ []) ++ nameless ∷ []))
get_installed_packages_lem_example =
    get_installed_packages_lem dpkg ascii (curl ∷ [])
      (stdout_data (buffer "curl|7.88|arm64|we")
        ∷ stdout_data (buffer "b|transfer tool|https://curl.se\n")
        ∷ [])
      [] refl refl refl tt (refl, refl, (refl, refl, refl)) refl (curl-HasPlainFields, tt)

-- raspi-config with two features, of which the first is on and the second is missing.
abbrev raspi_config : String → List String → ChildProcess
raspi_config command [] = printing "Usage: raspi-config\nSupported features: spi camera\n"
raspi_config command (_ ∷ _) = printing "1 2\n"

abbrev old_raspi_config : String → List String → ChildProcess
old_raspi_config command args = printing "Usage: raspi-config\n"

get_configuration_states_lem_example :
    get_configuration_states raspi_config ("spi" ∷ "camera" ∷ [])
    ≡ settled (ok (map state_of (enabled ∷ not_available ∷ [])))
unfolding spawn_authorized join trim starts_with
get_configuration_states_lem_example =
    get_configuration_states_lem raspi_config ("spi" ∷ "camera" ∷ []) "1 2\n" enabled
      (not_available ∷ []) (λ e. cc) refl refl refl

abbrev two_features : List (String × Feature)
two_features = ("camera", not_available) ∷ []

get_all_supported_configurations_lem_example :
    get_all_supported_configurations raspi_config
    ≡ settled (ok (paired (("spi", enabled) ∷ two_features)))
unfolding get_supported_configurations spawn_authorized join trim starts_with split second_part
    without_char before drop_as
get_all_supported_configurations_lem_example =
    get_all_supported_configurations_lem raspi_config "spi" enabled two_features "1 2\n" refl
      (λ e. cc) refl refl refl

no_features_run :
    get_all_supported_configurations old_raspi_config
    ≡ settled (err (bad_request invalid_configuration))
unfolding get_supported_configurations spawn_authorized second_part starts_with
no_features_run = no_features_refused old_raspi_config refl
