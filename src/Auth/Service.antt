-- ===== src/Auth/Service.antt =====
-- src/authentication/authentication.service.ts. The state is that of the two databases. The
-- default password of the device is what its promise has settled to.
use rpi_nest_api.Prelude.{ℕ, String, Bool, false, not, Option, none, some}
use rpi_nest_api.Exec.{
  Void, Result, ok, err, Exec, unauthorized, forbidden, pure, throw, throw_if, lift, gets, ◌>>=◌,
  ◌>>◌,
}
use rpi_nest_api.Roles.{admin_user_name}
use rpi_nest_api.Users
use rpi_nest_api.Users.{UserData, UserStore}
use rpi_nest_api.Settings
use rpi_nest_api.Settings.{SettingsStore, authentication}
use rpi_nest_api.Auth.Crypto.{Bcrypt, Jwt, AccessTokenPayload, hash_password, compare_passwords}
pub mod Login
pub mod Password

pub record World (U T : Type 0) : Type 0 where
  pub users : U
  pub settings : T

module _ {U T A : Type 0} where
  abbrev pub on_users : Exec U A → Exec (World U T) A
  on_users m w = ((m w.users).0, record w { users = (m w.users).1 })

  abbrev pub on_settings : Exec T A → Exec (World U T) A
  on_settings m w = ((m w.settings).0, record w { settings = (m w.settings).1 })

module _ {U T : Type 0} (db : UserStore U) (settings : SettingsStore T) (bcrypt : Bcrypt) where
  abbrev pub user_or_throw : Option UserData → Exec (World U T) UserData
  user_or_throw none = throw unauthorized
  user_or_throw (some user) = pure user

  unfoldable pub get_user_or_throw : String → Exec (World U T) UserData
  unfolding Users.get_by_login
  get_user_or_throw user_login = do
    user ← on_users (Users.get_by_login db user_login)
    user_or_throw user

  unfoldable pub get_authenticated_user_or_throw : String → String → Exec (World U T) UserData
  unfolding get_user_or_throw
  get_authenticated_user_or_throw user_login password = do
    user ← get_user_or_throw user_login
    throw_if (not (compare_passwords bcrypt password user.password_hash)) unauthorized
    pure user

  -- `updateUserPassword`, with the time and the salt that the calls below it draw
  unfoldable pub update_user_password : ℕ → ℕ → String → String → Exec (World U T) Void
  update_user_password now salt user_login new_password =
      let password_hash = hash_password bcrypt salt new_password in
      on_users (
        Users.update db now user_login
          (record { password_hash = some password_hash; description = none; roles = none }))

  unfoldable pub login : Jwt → ℕ → String → String → Exec (World U T) String
  login jwt now user_login password = do
    user ← get_authenticated_user_or_throw user_login password
    let payload : AccessTokenPayload = record {
      sub = user_login;
      roles = some user.roles;
      modified = user.modified;
    }
    pure (jwt.sign now payload)

  unfoldable pub update_password : ℕ → ℕ → String → String → String → Exec (World U T) Void
  update_password now salt user_login current_password new_password = do
    get_authenticated_user_or_throw user_login current_password
    update_user_password now salt user_login new_password

  unfoldable pub reset_admin_password : ℕ → ℕ → Result String → Exec (World U T) Void
  reset_admin_password now salt device_password = do
    stored ← on_settings ((Settings.for settings authentication).get)
    throw_if (not stored.is_admin_password_reset_enabled) (forbidden "Password reset is forbidden")
    default_password ← lift device_password
    update_user_password now salt admin_user_name default_password
