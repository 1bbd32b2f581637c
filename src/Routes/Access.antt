-- ===== src/Routes/Access.antt =====
-- What the table of routes opens to whom.
use rpi_nest_api.Prelude.{ℕ, String, Option, inl, inr, true, false, ◌≡◌, ◌≢◌, ◌⊎◌, ◌↔◌, arith}
use rpi_nest_api.Roles.{AccessRole, includes?, admin_user_name}
use rpi_nest_api.Auth.Crypto.{AccessTokenPayload, Jwt}
use rpi_nest_api.Exec.{ok}
use rpi_nest_api.Auth.Guard.{Reflector, Lodash, can_activate}
use rpi_nest_api.Auth.Guard.Decision.{IsPublic, HasToken, can_activate_lem}
use rpi_nest_api.Auth.Guard.Rights.{MayAccess}
use rpi_nest_api.Routes.{
  Method, Route, AuthenticationRoute, AuthorizationTestRoute, DeviceRoute, OpenApiRoute, endpoint,
}

-- The account "admin" or the role 'admin'.
abbrev pub IsAdmin : AccessTokenPayload → Type 0
IsAdmin p = (p.sub ≡ admin_user_name) ⊎ (includes? p.roles AccessRole.admin ≡ true)

abbrev pub IsOpen : Route → Type 0
IsOpen r =
    (r ≡ Route.authentication AuthenticationRoute.login)
    ⊎ ((r ≡ Route.authentication AuthenticationRoute.reset_password)
        ⊎ ((r ≡ Route.authorization_test AuthorizationTestRoute.get_public)
            ⊎ (r ≡ Route.open_api OpenApiRoute.root)))

-- The public routes are the login, the reset of the administrator's password, a test route and the
-- redirection of the root.
pub IsPublic-routes : (r : Route) → IsPublic (endpoint r).context ↔ IsOpen r
IsPublic-routes r = (λ h. ground arith, λ h. ground arith)

-- A token that is no administrator's and lacks the role 'user' may access only routes that read.
pub read_only_reads :
    (r : Route) (p : AccessTokenPayload)
    → (IsAdmin p → ⊥)
    → includes? p.roles AccessRole.user ≡ false
    → MayAccess (endpoint r).context p
    → (endpoint r).method ≡ Method.get
read_only_reads r p no_admin no_user m = ground arith

-- The rights that a token needs for a route that does more than read.
pub MayAccess-IsAdmin :
    (r : Route) (p : AccessTokenPayload)
    → (endpoint r).method ≢ Method.get
    → r ≢ Route.device DeviceRoute.set_meta_data
    → MayAccess (endpoint r).context p
    → IsAdmin p
MayAccess-IsAdmin r p writes other m = ground arith

module _ (reflector : Reflector) (lodash : Lodash) (jwt : Jwt) where
  -- If the guard lets a request through to a route which does more than read, and the route is
  -- neither the login, nor the reset of the administrator's password, nor the one that writes the
  -- metadata of the device, then the request shows a valid token, of the account 'admin' or with the
  -- role 'admin'.
  pub writes_need-IsAdmin :
      (r : Route) (now : ℕ) (authorization : Option String)
      → (endpoint r).method ≢ Method.get
      → r ≢ Route.authentication AuthenticationRoute.login
      → r ≢ Route.authentication AuthenticationRoute.reset_password
      → r ≢ Route.device DeviceRoute.set_meta_data
      → can_activate reflector lodash jwt now (endpoint r).context authorization ≡ ok true
      → (p : AccessTokenPayload) × HasToken jwt now authorization p × IsAdmin p
  writes_need-IsAdmin r now authorization writes no_login no_reset other through =
      elim (can_activate_lem reflector lodash jwt now (endpoint r).context authorization) [
        | inl (inl public, e) ↦ absurd (closed ((IsPublic-routes r).0 public))
        | inl (inr (p, t, m), e) ↦ (p, t, MayAccess-IsAdmin r p writes other m)
        | inr (inl (h, n, e)) ↦ absurd (cc (through, e))
        | inr (inr (h, n, e)) ↦ absurd (cc (through, e))
      ]
    where
      closed : IsOpen r → ⊥
      closed h = ground (arith, h)
