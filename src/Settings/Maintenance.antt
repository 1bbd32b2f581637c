-- ===== src/Settings/Maintenance.antt =====
-- src/datastore/maintenance/maintenance.service.ts and the two commands that reset settings,
-- src/datastore/cli/reset-all-defaults.ts and src/authentication/cli/reset-defaults.ts.
use rpi_nest_api.Prelude.{
  String, Bool, true, false, ◌&&◌, not, Option, none, some, List, [], ◌∷◌, or_else, template,
  if◌then◌else◌,
}
use rpi_nest_api.Exec.{
  Void, Result, ok, err, Exception, Exec, conflict, pure, throw, throw_if, ◌>>=◌, ◌>>◌,
}
use rpi_nest_api.Settings.{
  SettingsKey, authentication, key_text, all_settings_keys, SettingsStore, for,
}
pub mod Laws

abbrev pub not_empty : SettingsKey → String
not_empty k = template ("Settings for \"" ∷ key_text k ∷ "\" are not empty." ∷ [])

-- How a command ends: normally, or by `this.command.error(message, { exitCode })`.
pub data Outcome : Type 0 where
  finished : Outcome
  failed : String → Outcome

abbrev pub some_not_empty : String
some_not_empty = "Error: Not all settings are empty. Use --force to reset them anyway"

abbrev pub authentication_not_empty : String
authentication_not_empty =
    "Error: Authentication settings are not empty. Use --force to reset them anyway"

module _ {St : Type 0} (db : SettingsStore St) where
  -- One round of the loop of `resetAllSettingsToDefaults`.
  unfoldable pub reset_one : Bool → SettingsKey → Exec St Void
  unfolding for
  reset_one ignore_existing k = do
    let repository = for db k
    is_initialized ← repository.is_initialized
    throw_if (is_initialized && not ignore_existing) (conflict (not_empty k))
    repository.reset_defaults

  unfoldable pub reset_each : Bool → List SettingsKey → Exec St Void
  reset_each ignore_existing [] = pure tt
  reset_each ignore_existing (k ∷ ks) = reset_one ignore_existing k >> reset_each ignore_existing ks

  unfoldable pub reset_all_settings_to_defaults : Option Bool → Exec St Void
  unfolding reset_each
  reset_all_settings_to_defaults ignore_existing =
      reset_each (or_else ignore_existing false) all_settings_keys

  -- The `catch` of the command `reset-all-defaults`.
  abbrev pub handle_conflict : Result Void × St → Result Outcome × St
  handle_conflict (ok _, s) = (ok finished, s)
  handle_conflict (err (conflict _), s) = (ok (failed some_not_empty), s)
  handle_conflict (err e, s) = (err e, s)

  unfoldable pub run_reset_all_defaults : Option Bool → Exec St Outcome
  unfolding reset_all_settings_to_defaults
  run_reset_all_defaults force s = handle_conflict (reset_all_settings_to_defaults force s)

  -- The command `authentication reset-defaults`.
  unfoldable pub run_reset_defaults : Option Bool → Exec St Outcome
  unfolding for
  run_reset_defaults force = do
    is_initialized ← (for db authentication).is_initialized
    if is_initialized && not (or_else force false)
        then pure (failed authentication_not_empty)
        else ((for db authentication).reset_defaults >> pure finished)
