-- ===== src/Device/Metadata.antt =====
-- src/device/device.service.ts.
pub mod RoundTrip
use rpi_nest_api.Prelude.{String, List}
use rpi_nest_api.Exec.{Void, Exec}
use rpi_nest_api.Settings as Settings
use rpi_nest_api.Settings.{MetadataSettings, PartialMetadata, SettingsStore, metadata}
use rpi_nest_api.Shell.ChildProcess.{ChildProcess, Promise}
use rpi_nest_api.Shell.Dpkg.{PackageInfo, get_installed_packages}

module _ {T : Type 0} (settings : SettingsStore T) where
  unfoldable pub get_meta_data : Exec T MetadataSettings
  get_meta_data = (Settings.for settings metadata).get

  unfoldable pub set_meta_data : PartialMetadata → Exec T Void
  set_meta_data meta_data = (Settings.for settings metadata).update meta_data

unfoldable pub list_installed_packages :
    (String → List String → ChildProcess) → Promise (List PackageInfo)
list_installed_packages os = get_installed_packages os
