-- ===== src/Auth/Guard.antt =====
-- src/authentication/authentication.guard.ts. The `Reflector` of @nestjs/core, which reads the
-- metadata that decorators left on a handler and on its class, and lodash's `intersection` are
-- parameters with their documented behaviour.
use rpi_nest_api.Prelude.{
  ℕ, String, Bool, true, false, not, ◌&&◌, ◌||◌, ◌≡◌, Option, none, some, List, [], ◌∷◌, ◌==◌,
  or_else, length, if◌then◌else◌,
}
use rpi_nest_api.Exec.{Result, ok, err, unauthorized}
use rpi_nest_api.Roles.{AccessRole, admin, includes, includes?, admin_user_name}
use rpi_nest_api.Text.{split}
use rpi_nest_api.Auth.Crypto.{AccessTokenPayload, Jwt}
pub mod Rights
pub mod Decision
pub mod Session

-- The metadata of a route: `isPublic` and `access-roles`, each on the handler and on the class.
pub record Context : Type 0 where
  pub handler_public : Option Bool
  pub class_public : Option Bool
  pub handler_roles : Option (List AccessRole)
  pub class_roles : Option (List AccessRole)

-- `getAllAndOverride` gives the first value that is defined, `getAllAndMerge` the values of both.
pub record Reflector : Type 0 where
  pub get_all_and_override : Option Bool → Option Bool → Option Bool
  pub get_all_and_merge : Option (List AccessRole) → Option (List AccessRole) → List AccessRole
  pub override_first : (b : Bool) (c : Option Bool) → get_all_and_override (some b) c ≡ some b
  pub override_second : (c : Option Bool) → get_all_and_override none c ≡ c
  pub includes-merge :
      (h c : Option (List AccessRole)) (r : AccessRole)
      → includes (get_all_and_merge h c) r ≡ includes? h r || includes? c r

-- `intersection(xs, ys)`, which is empty where `ys` is undefined
pub record Lodash : Type 0 where
  pub intersection : List AccessRole → Option (List AccessRole) → List AccessRole
  pub includes-intersection :
      (xs : List AccessRole) (ys : Option (List AccessRole)) (r : AccessRole)
      → includes (intersection xs ys) r ≡ includes xs r && includes? ys r

-- `const [type, token] = ...; return type === 'Bearer' ? token : undefined`
abbrev pub bearer : List String → Option String
bearer [] = none
bearer (type ∷ []) = none
bearer (type ∷ token ∷ _) = if type == "Bearer" then some token else none

abbrev pub parts_of : Option String → List String
parts_of none = []
parts_of (some authorization) = split b' ' authorization

unfoldable pub extract_token_from_header : Option String → Option String
extract_token_from_header authorization = bearer (parts_of authorization)

abbrev pub is_empty : List AccessRole → Bool
is_empty [] = true
is_empty (_ ∷ _) = false

module _ (reflector : Reflector) (lodash : Lodash) where
  unfoldable pub is_route_public : Context → Bool
  is_route_public c = or_else (reflector.get_all_and_override c.handler_public c.class_public) false

  unfoldable pub is_user_authorized : Context → AccessTokenPayload → Bool
  is_user_authorized c payload =
      if payload.sub == admin_user_name
      then true
      else if includes? payload.roles admin
      then true
      else not (
          is_empty (
            lodash.intersection (reflector.get_all_and_merge c.handler_roles c.class_roles)
              payload.roles))

  -- The `try` block: `verifyAsync` throws on a bad token.
  abbrev pub verified : Context → Option AccessTokenPayload → Result Bool
  verified c none = err unauthorized
  verified c (some payload) = ok (is_user_authorized c payload)

  abbrev pub with_token : Jwt → ℕ → Context → Option String → Result Bool
  with_token jwt now c none = err unauthorized
  with_token jwt now c (some token) = verified c (jwt.verify now token)

  unfoldable pub can_activate : Jwt → ℕ → Context → Option String → Result Bool
  can_activate jwt now c authorization =
      if is_route_public c
      then ok true
      else with_token jwt now c (extract_token_from_header authorization)
