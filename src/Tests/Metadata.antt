-- ===== src/Tests/Metadata.antt =====
-- A request that names only the location of the device, where a name is stored: the name is gone.
use rpi_nest_api.Prelude.{◌≡◌, ◌≢◌, ◌⊎◌, refl, none, some}
use rpi_nest_api.Exec.{Exception, ok, err}
use rpi_nest_api.Json.{text, Fields, end, field}
use rpi_nest_api.Settings.{SettingsKey, MetadataSettings, metadata, get, update, merge, for}
use rpi_nest_api.Device.Metadata.{get_meta_data, set_meta_data}
use rpi_nest_api.Validation.Metadata.{InLimits, receive_meta_data, receive_meta_data_lem}
use rpi_nest_api.Tests.Checks.{check, passes, entries, sample_checks}
use rpi_nest_api.Tests.Stores.{SettingsTable, settings_store}

abbrev location_body : Fields
location_body = field "location" (text "hall") end

abbrev hall : MetadataSettings
hall = record { name = none; description = none; location = some "hall" }

abbrev door : MetadataSettings
door = record { name = some "door"; description = none; location = none }

abbrev at_the_door : SettingsTable
at_the_door = record { of_authentication = none; of_metadata = some door; of_test = none }

receive_meta_data_lem_example :
    ((e : Exception) × (receive_meta_data sample_checks settings_store location_body hall
          at_the_door
        ≡ (err e, at_the_door)))
    ⊎ ((s' : SettingsTable) × (receive_meta_data sample_checks settings_store location_body hall
            at_the_door
          ≡ (ok tt, s'))
        × InLimits hall
        × (get_meta_data settings_store s' ≡ (ok hall, s'))
        × ((k : SettingsKey)
            → k ≢ metadata
            → settings_store.get s' k ≡ settings_store.get at_the_door k))
receive_meta_data_lem_example =
    receive_meta_data_lem sample_checks settings_store location_body hall door at_the_door
      (refl, refl, refl) refl

name_gone :
    receive_meta_data sample_checks settings_store location_body hall at_the_door
    ≡ (ok tt, record at_the_door { of_metadata = some hall })
unfolding receive_meta_data set_meta_data for update get merge check passes entries
name_gone = refl
