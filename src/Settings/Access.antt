-- ===== src/Settings/Access.antt =====
-- What `get` and `update` do on an initialised setting.
use rpi_nest_api.Prelude.{◌≡◌, some}
use rpi_nest_api.Exec.{ok}
use rpi_nest_api.Settings.{
  SettingsKey, SettingsType, PartialSettings, SettingsStore, merge, get, update,
}

module _ {St : Type 0} (db : SettingsStore St) (k : SettingsKey) (s : St) where
  pub get_initialized : (v : SettingsType k) → db.get s k ≡ some v → get db k s ≡ (ok v, s)
  unfolding get
  get_initialized v e = rw e

  pub update_initialized :
      (c : PartialSettings k) (v : SettingsType k)
      → db.get s k ≡ some v
      → update db k c s ≡ (ok tt, db.put s k (merge k v c))
  unfolding update
  update_initialized c v e = rw e
