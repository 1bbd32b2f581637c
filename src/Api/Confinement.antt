-- ===== src/Api/Confinement.antt =====
-- What requests without an administrator's token can change.
use rpi_nest_api.Prelude.{ℕ, String, ◌≢◌, inl, inr, Option, none, some, List, [], ◌∷◌, All}
use rpi_nest_api.Exec.{lift}
use rpi_nest_api.Json.{Fields}
use rpi_nest_api.Users.{UserStore}
use rpi_nest_api.Settings.{SettingsStore}
use rpi_nest_api.Auth.Crypto.{AccessTokenPayload, Jwt}
use rpi_nest_api.Auth.Service.{World}
use rpi_nest_api.Auth.Guard.{can_activate}
use rpi_nest_api.Auth.Guard.Decision.{IsPublic, HasToken, can_activate_lem}
use rpi_nest_api.Auth.UserService.{UserRequest, put, patch, delete}
use rpi_nest_api.Routes.{Route, Method, DeviceRoute, endpoint}
use rpi_nest_api.Routes.Access.{IsAdmin, MayAccess-IsAdmin}
use rpi_nest_api.Api.{
  Action, Request, Packages, login, update_password, reset_password, change_user, change_meta_data,
  checked, body_of, route_of, user_route, allowed, perform, answer, answer_all,
}
use rpi_nest_api.Api.Confines.{
  Confined, Confines, Confined-refl, Confined-trans, Confines-pure, Confines-lift, Confines-bind,
  Confines-allowed, reset-Confines, set_meta_data-Confines, login-Confines,
}

-- A request shows a valid token of the account 'admin' or of a user with the role 'admin'.
abbrev pub ShowsAdmin : Jwt → Request → Type 0
ShowsAdmin jwt r = (p : AccessTokenPayload) × HasToken jwt r.now r.authorization p × IsAdmin p

user_route_closed :
    (r : UserRequest)
    → (IsPublic (endpoint (Route.user (user_route r))).context → ⊥)
      × ((endpoint (Route.user (user_route r))).method ≢ Method.get)
user_route_closed (put now salt u) = (λ h. cc, λ h. cc)
user_route_closed (patch now c) = (λ h. cc, λ h. cc)
user_route_closed (delete k) = (λ h. cc, λ h. cc)

module _ {U T : Type 0} (packages : Packages) (db : UserStore U) (settings : SettingsStore T) where
  -- Where only an administrator may pass, a request without its token changes nothing.
  closed-Confined :
      (r : Request) (w : World U T)
      → (IsPublic (endpoint (route_of r.action)).context → ⊥)
      → (endpoint (route_of r.action)).method ≢ Method.get
      → route_of r.action ≢ Route.device DeviceRoute.set_meta_data
      → (ShowsAdmin packages.jwt r → ⊥)
      → Confined db settings w (answer packages db settings r w).1
  unfolding answer
  closed-Confined r w closed writes other no_admin =
      elim (can_activate_lem packages.reflector packages.lodash packages.jwt r.now
        (endpoint (route_of r.action)).context r.authorization) [
          | inl (inl h, e) ↦ absurd (closed h)
          | inl (inr (p, t, m), e) ↦
              absurd (no_admin (p, t, MayAccess-IsAdmin (route_of r.action) p writes other m))
          | inr (inl (h, n, e)) ↦ rw e (Confined-refl db settings w)
          | inr (inr (h, n, e)) ↦ rw e (Confined-refl db settings w)
        ]

  open_action :
      (r : Request)
      → Confines db settings (perform packages db settings r.now r.salt r.action)
      → (w : World U T) → Confined db settings w (answer packages db settings r w).1
  unfolding answer
  open_action r c =
      (Confines-bind db settings
        (allowed (
          can_activate packages.reflector packages.lodash packages.jwt r.now
            (endpoint (route_of r.action)).context r.authorization))
        _ (Confines-allowed db settings _)
        λ _.
          Confines-bind db settings
            (lift (checked packages.checks (body_of packages.checks r.action) r.body)) _
            (Confines-lift db settings _) λ _. c).at

  abbrev request : ℕ → ℕ → Option String → Fields → Action → Request
  request now salt authorization body action = record {
    now = now;
    salt = salt;
    authorization = authorization;
    body = body;
    action = action;
  }

  action-Confined :
      (now salt : ℕ) (authorization : Option String) (body : Fields) (a : Action) (w : World U T)
      → (ShowsAdmin packages.jwt (request now salt authorization body a) → ⊥)
      → Confined db settings w
          (answer packages db settings (request now salt authorization body a) w).1
  unfolding perform
  action-Confined now salt authorization body (login username password) w h =
      open_action (request now salt authorization body (login username password))
        (Confines-bind db settings _ _
          (login-Confines db settings packages.bcrypt packages.jwt now username password)
          (λ token. Confines-pure db settings (some token)))
        w
  action-Confined now salt authorization body (update_password k old new) w h =
      closed-Confined (request now salt authorization body (update_password k old new)) w (λ p. cc)
        (λ e. cc) (λ e. cc) h
  action-Confined now salt authorization body reset_password w h =
      open_action (request now salt authorization body reset_password)
        (Confines-bind db settings _ _
          (reset-Confines db settings packages.bcrypt now salt packages.device_password)
          (λ _. Confines-pure db settings none))
        w
  action-Confined now salt authorization body (change_user r) w h =
      let (closed, writes) = user_route_closed r in
      closed-Confined (request now salt authorization body (change_user r)) w closed writes
        (λ e. cc) h
  action-Confined now salt authorization body (change_meta_data c) w h =
      open_action (request now salt authorization body (change_meta_data c))
        (Confines-bind db settings _ _ (set_meta_data-Confines db settings c)
          (λ _. Confines-pure db settings none))
        w

  -- Whatever requests come in, with whatever bodies, of which none shows a valid token of the account
  -- 'admin' or of a user with the role 'admin': no user but 'admin' changes, the account 'admin' is
  -- neither created nor removed and keeps its roles, and no setting but the metadata changes.
  pub answer_all-Confined :
      (rs : List Request) (w : World U T)
      → All (λ r. ShowsAdmin packages.jwt r → ⊥) rs
      → Confined db settings w (answer_all packages db settings rs w)
  unfolding answer_all
  answer_all-Confined [] w hs = Confined-refl db settings w
  answer_all-Confined (r ∷ rs) w (h, hs) =
      Confined-trans db settings w (answer packages db settings r w).1 _
        (action-Confined r.now r.salt r.authorization r.body r.action w h)
        (answer_all-Confined rs (answer packages db settings r w).1 hs)
