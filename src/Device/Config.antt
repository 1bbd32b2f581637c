-- ===== src/Device/Config.antt =====
-- src/device/device-config/device-config.service.ts. The value of an update is its text, as
-- `toString` gives it.
use Prim.Native.String
use rpi_nest_api.Prelude.{
  ℕ, suc, String, Bool, true, false, Option, none, some, List, [], ◌∷◌, get_elem?,
}
use rpi_nest_api.Exec.{Void, ok}
use rpi_nest_api.Shell.ChildProcess.{ChildProcess, Promise, settled}
use rpi_nest_api.Shell.RpiConfig.{
  RpiConfigurationState, and_then, get_supported_configurations, get_configuration_states,
  get_configuration_status, enable_configuration, disable_configuration,
}
pub mod Listing

-- DeviceConfigDto; what a missing state leaves out is `none`.
pub record DeviceConfigDto : Type 0 where
  pub id : String
  pub is_available : Option Bool
  pub is_enabled : Option Bool
  pub value : Option String

pub record UpdateDeviceConfigDto : Type 0 where
  pub is_enabled : Bool
  pub value : Option String

-- { id, ...result }
abbrev pub entry : String → Option RpiConfigurationState → DeviceConfigDto
entry id none = record { id = id; is_available = none; is_enabled = none; value = none }
entry id (some r) = record {
  id = id;
  is_available = some r.is_available;
  is_enabled = some r.is_enabled;
  value = r.value;
}

-- `ids.map((id, index) => ({ id, ...results[index] }))`, from an index on
abbrev pub entries : List String → ℕ → List RpiConfigurationState → List DeviceConfigDto
entries [] index results = []
entries (id ∷ ids) index results =
    entry id (get_elem? results index) ∷ entries ids (suc index) results

module _ (os : String → List String → ChildProcess) where
  unfoldable pub get_all_supported_configurations : Promise (List DeviceConfigDto)
  get_all_supported_configurations = and_then (get_supported_configurations os) (λ ids.
      and_then (get_configuration_states os ids) (λ results. settled (ok (entries ids 0 results))))

  unfoldable pub get_configuration : String → Promise DeviceConfigDto
  get_configuration id =
      and_then (get_configuration_status os id) (λ result. settled (ok (entry id (some result))))

  abbrev pub set_enabled : Bool → String → Option String → Promise Void
  set_enabled true id value = enable_configuration os id value
  set_enabled false id value = disable_configuration os id

  unfoldable pub set_configuration : String → UpdateDeviceConfigDto → Promise Void
  set_configuration id dto = set_enabled dto.is_enabled id dto.value
