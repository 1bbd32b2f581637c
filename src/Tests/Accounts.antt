-- ===== src/Tests/Accounts.antt =====
-- Runs of the theorems about users, passwords and roles.
use rpi_nest_api.Prelude.{
  String, false, true, false, ◌≡◌, ◌⊎◌, ◌↔◌, refl, none, some, List, [], ◌∷◌, map,
}
use rpi_nest_api.Exec.{Result, Exception, ok, err, unauthorized}
use rpi_nest_api.Roles.{AccessRole}
use rpi_nest_api.Users.{UserData}
use rpi_nest_api.Auth.Service.{World, login, update_password, reset_admin_password}
use rpi_nest_api.Auth.Service.Login.{payload_of, Authenticates, login_lem}
use rpi_nest_api.Auth.Service.Password.{GotPassword, update_password_lem, reset_admin_password_lem}
use rpi_nest_api.Auth.UserService as Service
use rpi_nest_api.Auth.UserService.{UserDto, UpdateUserDto, UserRequest, serve, parse_roles}
use rpi_nest_api.Auth.UserService.Reserved.{serve-admin}
use rpi_nest_api.Auth.UserService.Accounts.{HasAccount, create_lem, update_lem, create_admin_lem}
use rpi_nest_api.Auth.UserService.RoleOption.{role_text, parse_roles_iff}
use rpi_nest_api.Tests.Token.{spelled_jwt}
use rpi_nest_api.Tests.Packages.{plain_bcrypt}
use rpi_nest_api.Tests.Stores.{Users, user_store, SettingsTable, settings_store}

abbrev pub eve : UserData
eve = record {
  login = "eve";
  password_hash = "secret";
  description = none;
  roles = AccessRole.user ∷ [];
  created = 10;
  modified = 20;
}

abbrev pub administrator : UserData
administrator = record {
  login = "admin";
  password_hash = "serial";
  description = some "The default admin user";
  roles = AccessRole.admin ∷ [];
  created = 1;
  modified = 1;
}

abbrev pub two_users : Users
two_users = ("eve", eve) ∷ ("admin", administrator) ∷ []

abbrev reset_allowed : SettingsTable
reset_allowed = record {
  of_authentication = some (record { is_admin_password_reset_enabled = true });
  of_metadata = none;
  of_test = none;
}

abbrev pub world : World Users SettingsTable
world = record { users = two_users; settings = reset_allowed }

login_lem_example :
    ((u : UserData) × Authenticates user_store settings_store plain_bcrypt world "eve" "secret" u
      × (login user_store settings_store plain_bcrypt spelled_jwt 30 "eve" "secret" world
          ≡ (ok (spelled_jwt.sign 30 (payload_of "eve" u)), world)))
    ⊎ (((u : UserData)
          → Authenticates user_store settings_store plain_bcrypt world "eve" "secret" u
          → ⊥)
        × (login user_store settings_store plain_bcrypt spelled_jwt 30 "eve" "secret" world
            ≡ (err unauthorized, world)))
login_lem_example =
    login_lem user_store settings_store plain_bcrypt spelled_jwt 30 world "eve" "secret"

update_password_lem_example :
    ((u : UserData) × Authenticates user_store settings_store plain_bcrypt world "eve" "secret" u
      × ((w' : World Users SettingsTable) × (update_password user_store settings_store plain_bcrypt
              50 7 "eve" "secret" "better" world
            ≡ (ok tt, w'))
          × GotPassword user_store settings_store plain_bcrypt 50 "eve" "better" u world w'))
    ⊎ (((u : UserData)
          → Authenticates user_store settings_store plain_bcrypt world "eve" "secret" u
          → ⊥)
        × (update_password user_store settings_store plain_bcrypt 50 7 "eve" "secret" "better" world
            ≡ (err unauthorized, world)))
update_password_lem_example =
    update_password_lem user_store settings_store plain_bcrypt 50 7 "eve" "secret" "better" world

reset_admin_password_lem_example :
    ((p : String) × (true ≡ true)
      × (Path (Result String) (ok "serial") (ok p))
      × ((w' : World Users SettingsTable) × (reset_admin_password user_store settings_store
              plain_bcrypt 50 7
              (ok "serial")
              world
            ≡ (ok tt, w'))
          × GotPassword user_store settings_store plain_bcrypt 50 "admin" p administrator world w'))
    ⊎ ((e : Exception) × ((true ≡ false) ⊎ (Path (Result String) (ok "serial") (err e)))
        × (reset_admin_password user_store settings_store plain_bcrypt 50 7 (ok "serial") world
            ≡ (err e, world)))
reset_admin_password_lem_example =
    reset_admin_password_lem user_store settings_store plain_bcrypt 50 7 true (ok "serial")
      administrator world refl refl

abbrev pub bob : UserDto
bob = record {
  login = "bob";
  password = "hunter";
  roles = AccessRole.read_only ∷ [];
  description = none;
}

create_lem_run :
    (s' : Users) × (Service.create user_store plain_bcrypt 60 8 bob two_users ≡ (ok tt, s'))
    × HasAccount user_store settings_store plain_bcrypt two_users s' "bob" "hunter"
        (AccessRole.read_only ∷ [])
        60
create_lem_run = create_lem user_store settings_store plain_bcrypt 60 8 bob two_users (λ e. cc) refl

abbrev promotion : UpdateUserDto
promotion = record { login = some "eve"; roles = some (AccessRole.admin ∷ []); description = none }

update_lem_example :
    (s' : Users) × (Service.update user_store 70 promotion two_users ≡ (ok tt, s'))
    × HasAccount user_store settings_store plain_bcrypt two_users s' "eve" "secret"
        (AccessRole.admin ∷ [])
        70
update_lem_example =
    update_lem user_store settings_store plain_bcrypt 70 "eve" "secret" promotion eve two_users
      (λ e. cc) refl refl refl

create_admin_run :
    (s' : Users) × (Service.create_admin user_store plain_bcrypt 5 9
        (ok "serial")
        (("eve", eve) ∷ [])
      ≡ (ok tt, s'))
    × HasAccount user_store settings_store plain_bcrypt
        (("eve", eve) ∷ [])
        s'
        "admin"
        "serial"
        (AccessRole.admin ∷ [])
        5
create_admin_run =
    create_admin_lem user_store settings_store plain_bcrypt 5 9 "serial" (("eve", eve) ∷ []) refl

-- Requests that aim at the account "admin" in every way.
abbrev attack : List UserRequest
attack =
    UserRequest.delete "admin"
    ∷ UserRequest.put 80 3 (record bob { login = "admin" })
    ∷ UserRequest.patch 90 (record promotion { login = some "admin" })
    ∷ UserRequest.delete "eve"
    ∷ []

serve-admin_run :
    user_store.get (serve user_store plain_bcrypt attack two_users) "admin" ≡ some administrator
serve-admin_run = serve-admin user_store plain_bcrypt attack two_users

two_roles :
    (parse_roles ("user" ∷ "read-only" ∷ []) [] ≡ ok (AccessRole.user ∷ AccessRole.read_only ∷ []))
    ↔ ("user" ∷ "read-only" ∷ [] ≡ map role_text (AccessRole.user ∷ AccessRole.read_only ∷ []))
two_roles =
    parse_roles_iff ("user" ∷ "read-only" ∷ []) (AccessRole.user ∷ AccessRole.read_only ∷ [])
