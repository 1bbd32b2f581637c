-- ===== src/Auth/Commands.antt =====
-- src/authentication/user/cli/remove-user.command.ts and create-admin.command.ts, and
-- src/authentication/cli/reset-admin-password.command.ts: each calls its service and prints a line.
use rpi_nest_api.Prelude.{ℕ, String}
use rpi_nest_api.Exec.{Void, Result, Exec}
use rpi_nest_api.Users.{UserStore}
use rpi_nest_api.Settings.{SettingsStore}
use rpi_nest_api.Auth.Crypto.{Bcrypt}
use rpi_nest_api.Auth.Service as Service
use rpi_nest_api.Auth.UserService as UserService

module _ {U : Type 0} (db : UserStore U) where
  unfoldable pub run_remove_user : String → Exec U Void
  run_remove_user username = UserService.remove db username

  unfoldable pub run_create_admin : Bcrypt → ℕ → ℕ → Result String → Exec U Void
  run_create_admin bcrypt now salt device_password =
      UserService.create_admin db bcrypt now salt device_password

module _ {U T : Type 0} (db : UserStore U) (settings : SettingsStore T) (bcrypt : Bcrypt) where
  unfoldable pub run_reset_admin_password : ℕ → ℕ → Result String → Exec (Service.World U T) Void
  run_reset_admin_password now salt device_password =
      Service.reset_admin_password db settings bcrypt now salt device_password
