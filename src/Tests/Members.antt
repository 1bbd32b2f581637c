-- ===== src/Tests/Members.antt =====
-- An administrator puts "bob" in, and removes "eve", whose token still writes the metadata.
use rpi_nest_api.Prelude.{
  ℕ, String, true, ◌≡◌, ◌≢◌, ◌⊎◌, ◌↔◌, inl, inr, refl, arith, Option, none, some, List, [], ◌∷◌,
}
use rpi_nest_api.Exec.{ok, err, unauthorized}
use rpi_nest_api.Json.{text, array, nil, item, Fields, end, field}
use rpi_nest_api.Roles.{AccessRole}
use rpi_nest_api.Settings.{PartialMetadata}
use rpi_nest_api.Auth.Service.{World}
use rpi_nest_api.Auth.Service.Login.{payload_of}
use rpi_nest_api.Auth.UserService.{UserRequest, put, delete}
use rpi_nest_api.Auth.Guard.{can_activate}
use rpi_nest_api.Auth.Guard.Decision.{IsPublic}
use rpi_nest_api.Auth.Guard.Rights.{MayAccess}
use rpi_nest_api.Auth.Guard.Session.{bearer_header, bearer-HasToken}
use rpi_nest_api.Routes.{Route, DeviceRoute, endpoint}
use rpi_nest_api.Api.{
  Request, Action, reset_password, answer_all, login, change_user, change_meta_data, answer,
  perform,
}
use rpi_nest_api.Api.Administrator.{admin_account, answer_all-admin_account}
use rpi_nest_api.Api.Accounts.{
  created_payload, IsChecked, Answers, IsAdminsChange, put-login, delete-login,
}
use rpi_nest_api.Tests.Accounts.{administrator, eve, bob, world}
use rpi_nest_api.Tests.Checks.{check, passes, entries}
use rpi_nest_api.Tests.Packages.{list_reflector, list_lodash}
use rpi_nest_api.Tests.Stores.{Users, SettingsTable, user_store, settings_store}
use rpi_nest_api.Tests.Strangers.{packages}
use rpi_nest_api.Tests.Token.{spelled_jwt}

abbrev request : ℕ → Option String → Fields → Action → Request
request now authorization body action = record {
  now = now;
  salt = 0;
  authorization = authorization;
  body = body;
  action = action;
}

abbrev admin_header : String
admin_header = bearer_header (spelled_jwt.sign 30 (payload_of "admin" administrator))

abbrev eve_header : String
eve_header = bearer_header (spelled_jwt.sign 30 (payload_of "eve" eve))

abbrev bob_body : Fields
bob_body =
    field "login" (text "bob")
      (field "password" (text "hunter") (field "roles" (array (item (text "read-only") nil)) end))

abbrev put_bob : Request
put_bob = request 40 (some admin_header) bob_body (change_user (put 40 8 bob))

abbrev credentials : String → String → Fields
credentials k password = field "username" (text k) (field "password" (text password) end)

abbrev login_bob : Request
login_bob = request 50 none (credentials "bob" "hunter") (login "bob" "hunter")

abbrev remove_eve : Request
remove_eve =
    request 40 (some admin_header) (field "login" (text "eve") end) (change_user (delete "eve"))

abbrev login_eve : Request
login_eve = request 50 none (credentials "eve" "secret") (login "eve" "secret")

abbrev moved : PartialMetadata
moved = record { name = none; description = none; location = some (some "hall") }

abbrev write_eve : Request
write_eve =
    request 50 (some eve_header) (field "location" (text "hall") end) (change_meta_data moved)

put_bob_accepted : IsChecked packages put_bob
unfolding check entries passes
put_bob_accepted = (bob_body, refl)

login_bob_accepted : IsChecked packages login_bob
unfolding check entries passes
login_bob_accepted = (credentials "bob" "hunter", refl)

remove_eve_accepted : IsChecked packages remove_eve
unfolding check entries passes
remove_eve_accepted = (field "login" (text "eve") end, refl)

login_eve_accepted : IsChecked packages login_eve
unfolding check entries passes
login_eve_accepted = (credentials "eve" "secret", refl)

write_eve_accepted : IsChecked packages write_eve
unfolding check entries passes
write_eve_accepted = (field "location" (text "hall") end, refl)

admins_change :
    (body : Fields) (u : UserRequest)
    → IsChecked packages (request 40 (some admin_header) body (change_user u))
    → IsAdminsChange packages (request 40 (some admin_header) body (change_user u)) u
admins_change body u accepted = (
  refl,
  (
    payload_of "admin" administrator,
    bearer-HasToken spelled_jwt 30 40 (payload_of "admin" administrator) (omega arith)
        (omega arith),
    inl refl,
  ),
  accepted,
)

put-login_example :
    (w' : World Users SettingsTable) × (token : String) × Answers packages user_store settings_store
      put_bob world none w'
    × Answers packages user_store settings_store login_bob w' (some token) w'
    × ((can_activate list_reflector list_lodash spelled_jwt 60
            (endpoint (Route.device DeviceRoute.get_meta_data)).context
            (some (bearer_header token))
          ≡ ok true)
        ↔ (IsPublic (endpoint (Route.device DeviceRoute.get_meta_data)).context
            ⊎ MayAccess
                (endpoint (Route.device DeviceRoute.get_meta_data)).context
                (created_payload 40 bob)))
    × ((j : String) → j ≢ "bob" → user_store.get w'.users j ≡ user_store.get world.users j)
    × (w'.settings ≡ world.settings)
put-login_example =
    put-login packages user_store settings_store put_bob login_bob 40 8 60 bob
      (endpoint (Route.device DeviceRoute.get_meta_data)).context world
      (admins_change bob_body (put 40 8 bob) put_bob_accepted) (refl, login_bob_accepted) (λ e. cc)
      refl (omega arith) (omega arith)

delete-login_example :
    (w' : World Users SettingsTable) × Answers packages user_store settings_store remove_eve world
      none w'
    × (answer packages user_store settings_store login_eve w' ≡ (err unauthorized, w'))
    × (answer packages user_store settings_store write_eve w'
        ≡ perform packages user_store settings_store 50 0 (change_meta_data moved) w')
    × ((j : String) → j ≢ "eve" → user_store.get w'.users j ≡ user_store.get world.users j)
    × (w'.settings ≡ world.settings)
delete-login_example =
    delete-login packages user_store settings_store remove_eve login_eve write_eve "eve" "secret"
      eve 30 world
      (admins_change (field "login" (text "eve") end) (delete "eve") remove_eve_accepted) (λ e. cc)
      refl (refl, login_eve_accepted) refl (omega arith) (omega arith)
      (inr (inr (AccessRole.user, refl, refl))) write_eve_accepted

-- Administrators aim at the account 'admin', and its password changes.
abbrev aimed : List Request
aimed =
    request 40 (some admin_header) (field "login" (text "admin") end) (change_user (delete "admin"))
    ∷ put_bob
    ∷ request 60 (some admin_header)
        (field "username" (text "admin")
          (field "password" (text "serial") (field "newPassword" (text "better") end)))
        (Action.update_password "admin" "serial" "better")
    ∷ request 70 none end reset_password
    ∷ []

answer_all-admin_account_example :
    admin_account user_store settings_store
      (answer_all packages user_store settings_store aimed world)
    ≡ admin_account user_store settings_store world
answer_all-admin_account_example =
    answer_all-admin_account packages user_store settings_store aimed world
