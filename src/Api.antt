-- ===== src/Api.antt =====
-- The requests that write to the stores, from the guard of src/authentication/authentication.module.ts
-- over the pipe of src/app.module.ts to the handlers of authentication.controller.ts, user.controller.ts
-- and device.controller.ts. A request has its time, and the salt for the hash that it may make.
use rpi_nest_api.Prelude.{ℕ, String, Bool, true, false, Option, none, some, List, [], ◌∷◌}
use rpi_nest_api.Exec.{Void, Result, ok, err, Exec, forbidden, pure, throw, lift, ◌>>=◌, ◌>>◌}
use rpi_nest_api.Json.{Fields}
use rpi_nest_api.Users.{UserStore}
use rpi_nest_api.Settings.{SettingsStore, PartialMetadata}
use rpi_nest_api.Auth.Crypto.{Bcrypt, Jwt}
use rpi_nest_api.Auth.Service as Service
use rpi_nest_api.Auth.Service.{World, on_users, on_settings}
use rpi_nest_api.Auth.UserService.{UserRequest, put, patch, delete, handle}
use rpi_nest_api.Auth.Guard.{Reflector, Lodash, can_activate}
use rpi_nest_api.Routes.{Route, AuthenticationRoute, UserRoute, DeviceRoute, endpoint}
use rpi_nest_api.Device.Metadata.{set_meta_data}
use rpi_nest_api.Validation.{Schema, Checks}
use rpi_nest_api.Validation.Dto.{login_dto, update_password_dto, device_metadata_dto}
use rpi_nest_api.Validation.Accounts.{schema_of}
pub mod Confines
pub mod Confinement
pub mod Accounts
pub mod Administrator

-- The handlers, with what they take from a body.
pub data Action : Type 0 where
  login : (username password : String) → Action
  update_password : (username password new_password : String) → Action
  reset_password : Action
  change_user : UserRequest → Action
  change_meta_data : PartialMetadata → Action

pub record Request : Type 0 where
  pub now : ℕ
  pub salt : ℕ
  pub authorization : Option String
  pub body : Fields
  pub action : Action

abbrev pub user_route : UserRequest → UserRoute
user_route (put now salt u) = UserRoute.create
user_route (patch now c) = UserRoute.update
user_route (delete k) = UserRoute.remove

abbrev pub route_of : Action → Route
route_of (login username password) = Route.authentication AuthenticationRoute.login
route_of (update_password username password new_password) =
    Route.authentication AuthenticationRoute.update_password
route_of reset_password = Route.authentication AuthenticationRoute.reset_password
route_of (change_user r) = Route.user (user_route r)
route_of (change_meta_data c) = Route.device DeviceRoute.set_meta_data

-- The type of a handler's `@Body()`, where it has one
abbrev pub body_of : Checks → Action → Option Schema
body_of checks (login username password) = some login_dto
body_of checks (update_password username password new_password) = some update_password_dto
body_of checks reset_password = none
body_of checks (change_user r) = some (schema_of checks r)
body_of checks (change_meta_data c) = some device_metadata_dto

abbrev pub checked : Checks → Option Schema → Fields → Result Fields
checked checks none fs = ok fs
checked checks (some schema) fs = checks.transform schema fs

-- NestJS answers with 403 where a guard returns false.
abbrev pub allowed : {S : Type 0} → Result Bool → Exec S Void
allowed (ok true) = pure tt
allowed (ok false) = throw (forbidden "Forbidden resource")
allowed (err e) = throw e

abbrev pub without_content : {S : Type 0} → Exec S Void → Exec S (Option String)
without_content m = m >> pure none

abbrev pub with_token : {S : Type 0} → Exec S String → Exec S (Option String)
with_token m = m >>= λ token. pure (some token)

-- The packages that the server is made with.
pub record Packages : Type 0 where
  pub bcrypt : Bcrypt
  pub jwt : Jwt
  pub reflector : Reflector
  pub lodash : Lodash
  pub checks : Checks
  pub device_password : Result String

module _ {U T : Type 0} (packages : Packages) (db : UserStore U) (settings : SettingsStore T) where
  unfoldable pub perform : ℕ → ℕ → Action → Exec (World U T) (Option String)
  perform now salt (login username password) =
      with_token (Service.login db settings packages.bcrypt packages.jwt now username password)
  perform now salt (update_password username password new_password) =
      without_content (
        Service.update_password db settings packages.bcrypt now salt username password new_password)
  perform now salt reset_password =
      without_content
        (Service.reset_admin_password db settings packages.bcrypt now salt packages.device_password)
  perform now salt (change_user r) = without_content (on_users (handle db packages.bcrypt r))
  perform now salt (change_meta_data c) = without_content (on_settings (set_meta_data settings c))

  -- The guard comes first, then the pipe, then the handler.
  unfoldable pub answer : Request → Exec (World U T) (Option String)
  answer r = do
    allowed (
        can_activate packages.reflector packages.lodash packages.jwt r.now
          (endpoint (route_of r.action)).context r.authorization)
    body ← lift (checked packages.checks (body_of packages.checks r.action) r.body)
    perform r.now r.salt r.action

  -- The stores after some requests, of which any may have been refused.
  unfoldable pub answer_all : List Request → World U T → World U T
  unfolding answer
  answer_all [] w = w
  answer_all (r ∷ rs) w = answer_all rs (answer r w).1
