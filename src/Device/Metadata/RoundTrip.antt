-- ===== src/Device/Metadata/RoundTrip.antt =====
-- The metadata that is read is the metadata that was written.
use rpi_nest_api.Prelude.{◌≡◌, ◌≢◌, some}
use rpi_nest_api.Exec.{ok}
use rpi_nest_api.Settings as Settings
use rpi_nest_api.Settings.{SettingsKey, MetadataSettings, PartialMetadata, SettingsStore, metadata}
use rpi_nest_api.Settings.Access.{get_initialized, update_initialized}
use rpi_nest_api.Device.Metadata.{get_meta_data, set_meta_data}

module _ {T : Type 0} (settings : SettingsStore T) where
  -- If the metadata is initialised, a change of it succeeds, what is read afterwards is the old
  -- metadata with the given properties replaced, and no other setting changes.
  pub set_meta_data-get_meta_data :
      (v : MetadataSettings) (c : PartialMetadata) (s : T)
      → settings.get s metadata ≡ some v
      → (s' : T) × (set_meta_data settings c s ≡ (ok tt, s'))
        × (get_meta_data settings s' ≡ (ok (Settings.merge metadata v c), s'))
        × ((k : SettingsKey) → k ≢ metadata → settings.get s' k ≡ settings.get s k)
  unfolding set_meta_data get_meta_data Settings.for
  set_meta_data-get_meta_data v c s e =
      let w = Settings.merge metadata v c in
      (
        settings.put s metadata w,
        update_initialized settings metadata s c v e,
        get_initialized settings metadata (settings.put s metadata w) w
            (settings.get-put_self s metadata w),
        λ k h. settings.get-put_other s metadata k w h,
      )
