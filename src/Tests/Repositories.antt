-- ===== src/Tests/Repositories.antt =====
-- Runs of the theorems about the repositories of users and settings.
use rpi_nest_api.Prelude.{
  ◌≢◌, String, true, ◌≡◌, refl, arith, none, some, List, [], ◌∷◌, Listed, eq_iff,
}
use rpi_nest_api.Exec.{ok}
use rpi_nest_api.Roles.{AccessRole}
use rpi_nest_api.Users.{UserData, get_all, Call, create_call, update_call, remove_call, perform_all}
use rpi_nest_api.Users.Directory.{view, specified_all, perform_all-eq-specified_all}
use rpi_nest_api.Users.WellFormed.{
  IsWellFormed, Continues, perform_all-IsWellFormed, perform_all-Continues,
}
use rpi_nest_api.Users.Listing.{get_all_lem}
use rpi_nest_api.Device.Metadata.{get_meta_data, set_meta_data}
use rpi_nest_api.Device.Metadata.RoundTrip.{set_meta_data-get_meta_data}
use rpi_nest_api.Settings.{PartialMetadata, merge, SettingsKey, SettingsType, default_settings}
use rpi_nest_api.Settings.Maintenance.{run_reset_all_defaults, finished, failed, some_not_empty}
use rpi_nest_api.Settings.Maintenance.Laws.{
  reset_forced, reset_unforced_empty, reset_unforced_refused,
}
use rpi_nest_api.Tests.Accounts.{eve, two_users}
use rpi_nest_api.Tests.Stores.{user_store, SettingsTable, settings_store}

-- Two calls that succeed and two that fail.
abbrev calls : List Call
calls =
    create_call 30 "bob" (record { password_hash = "h"; description = none; roles = [] })
    ∷ create_call 31 "eve" (record { password_hash = "h"; description = none; roles = [] })
    ∷ update_call 32 "eve" (record {
      password_hash = some "new";
      description = none;
      roles = some (AccessRole.read_only ∷ []);
    })
    ∷ remove_call 33 "nobody"
    ∷ []

perform_all-eq-specified_all_example :
    ((perform_all user_store calls two_users).0
      ≡ (specified_all calls (view user_store two_users)).0)
    × (view user_store (perform_all user_store calls two_users).1
        ≡ (specified_all calls (view user_store two_users)).1)
perform_all-eq-specified_all_example = perform_all-eq-specified_all user_store calls two_users

two_users-IsWellFormed : IsWellFormed 25 (view user_store two_users)
two_users-IsWellFormed k u e = ground (arith, eq_iff "eve" k, eq_iff "admin" k)

perform_all-IsWellFormed_example :
    IsWellFormed 33 (view user_store (perform_all user_store calls two_users).1)
perform_all-IsWellFormed_example =
    perform_all-IsWellFormed user_store 25 calls two_users
      (omega arith, (omega arith, (omega arith, (omega arith, tt)))) two_users-IsWellFormed

perform_all-Continues_run :
    Continues "eve" eve (view user_store (perform_all user_store calls two_users).1)
perform_all-Continues_run =
    perform_all-Continues user_store "eve" eve calls two_users (tt, (tt, (tt, ((λ e. cc), tt))))
      refl

get_all_lem_example :
    (us : List UserData) × (get_all user_store two_users ≡ (ok us, two_users))
    × ((k : String) (u : UserData) → user_store.get two_users k ≡ some u → Listed u us)
    × ((u : UserData) → Listed u us → (k : String) × (user_store.get two_users k ≡ some u))
get_all_lem_example = get_all_lem user_store two_users

abbrev no_settings : SettingsTable
no_settings = record { of_authentication = none; of_metadata = none; of_test = none }

abbrev named : SettingsTable
named = record no_settings {
  of_metadata = some (record { name = some "door"; description = none; location = none });
}

no_settings_empty : (k : SettingsKey) → settings_store.get no_settings k ≡ none
no_settings_empty SettingsKey.authentication = refl
no_settings_empty SettingsKey.metadata = refl
no_settings_empty SettingsKey.test = refl

reset_forced_run :
    (s' : SettingsTable) × (run_reset_all_defaults settings_store (some true) named
      ≡ (ok finished, s'))
    × ((k : SettingsKey) → settings_store.get s' k ≡ some (default_settings k))
reset_forced_run = reset_forced settings_store named

reset_of_nothing :
    (s' : SettingsTable) × (run_reset_all_defaults settings_store none no_settings
      ≡ (ok finished, s'))
    × ((k : SettingsKey) → settings_store.get s' k ≡ some (default_settings k))
reset_of_nothing = reset_unforced_empty settings_store no_settings no_settings_empty

reset_unforced_refused_example :
    ((run_reset_all_defaults settings_store none named).0 ≡ ok (failed some_not_empty))
    × ((j : SettingsKey) (w : SettingsType j)
        → settings_store.get named j ≡ some w
        → settings_store.get (run_reset_all_defaults settings_store none named).1 j ≡ some w)
reset_unforced_refused_example =
    reset_unforced_refused settings_store named SettingsKey.metadata
      (record { name = some "door"; description = none; location = none }) refl

abbrev moved : PartialMetadata
moved = record { name = none; description = none; location = some (some "hall") }

set_meta_data-get_meta_data_run :
    (s' : SettingsTable) × (set_meta_data settings_store moved named ≡ (ok tt, s'))
    × (get_meta_data settings_store s' ≡ (
      ok (
          merge SettingsKey.metadata
            (record { name = some "door"; description = none; location = none })
            moved),
      s',
    ))
    × ((k : SettingsKey)
        → k ≢ SettingsKey.metadata
        → settings_store.get s' k ≡ settings_store.get named k)
set_meta_data-get_meta_data_run =
    set_meta_data-get_meta_data settings_store
      (record { name = some "door"; description = none; location = none }) moved named refl
