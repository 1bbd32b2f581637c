-- ===== src/Validation/Accounts.antt =====
-- The requests of src/authentication/user/user.controller.ts that change users, as they come in: a
-- body is checked against its DTO before the handler runs.
use rpi_nest_api.Prelude.{
  ℕ, String, Bool, true, false, not, ◌&&◌, ◌≡◌, ◌≢◌, refl, Option, none, some, List, [], ◌∷◌, map,
  arith,
}
use rpi_nest_api.Exec.{Void, Exec, lift, ◌>>=◌}
use rpi_nest_api.Json.{Json, undefined, text, array, Fields, get}
use rpi_nest_api.Roles.{AccessRole, includes}
use rpi_nest_api.Users.{UserStore}
use rpi_nest_api.Auth.Crypto.{Bcrypt}
use rpi_nest_api.Auth.UserService.{UserDto, UpdateUserDto, UserRequest, put, patch, delete, handle}
use rpi_nest_api.Auth.UserService.RoleOption.{role_text}
use rpi_nest_api.Validation.{Schema, Checks, text_items}
use rpi_nest_api.Validation.Dto.{user_dto, update_user_dto, delete_user_dto}
pub mod Proper

-- How values stand in a body: a property that is not there is undefined.
abbrev pub optional_text : Option String → Json
optional_text none = undefined
optional_text (some t) = text t

abbrev pub roles_json : List AccessRole → Json
roles_json roles = array (text_items (map role_text roles))

abbrev pub optional_roles : Option (List AccessRole) → Json
optional_roles none = undefined
optional_roles (some roles) = roles_json roles

-- The body of a request, beside whatever other properties it has.
abbrev pub Sends : Fields → UserRequest → Type 0
Sends fs (put now salt u) =
    (get "login" fs ≡ text u.login)
    × (get "password" fs ≡ text u.password)
    × (get "roles" fs ≡ roles_json u.roles)
    × (get "description" fs ≡ optional_text u.description)
Sends fs (patch now c) =
    (get "login" fs ≡ optional_text c.login)
    × (get "roles" fs ≡ optional_roles c.roles)
    × (get "description" fs ≡ optional_text c.description)
Sends fs (delete login) = get "login" fs ≡ text login

module _ (checks : Checks) where
  -- The type of a handler's `@Body()`
  abbrev pub schema_of : UserRequest → Schema
  schema_of (put now salt u) = user_dto
  schema_of (patch now c) = update_user_dto checks
  schema_of (delete login) = delete_user_dto checks

module _ {U : Type 0} (checks : Checks) (db : UserStore U) (bcrypt : Bcrypt) where
  unfoldable pub receive : Fields → UserRequest → Exec U Void
  receive fs r = do body ← lift (checks.transform (schema_of checks r) fs); handle db bcrypt r

  -- The store after some requests, of which any may have been refused.
  unfoldable pub receive_all : List (Fields × UserRequest) → U → U
  unfolding receive
  receive_all [] s = s
  receive_all ((fs, r) ∷ rs) s = receive_all rs (receive fs r s).1

-- No role stands in a list twice.
abbrev pub distinct_roles : List AccessRole → Bool
distinct_roles [] = true
distinct_roles (r ∷ rs) = not (includes rs r) && distinct_roles rs
