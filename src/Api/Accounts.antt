-- ===== src/Api/Accounts.antt =====
-- The life of an account over the API: who is put in by an administrator can log in, and who is
-- removed cannot, but for the tokens that were given out before.
use rpi_nest_api.Prelude.{
  ℕ, ◌+◌, ◌≤◌, ◌<◌, String, true, ◌≡◌, ◌≢◌, ◌⊎◌, ◌↔◌, inl, inr, refl, ◌∙◌, Option, none, some,
  eq-false_of_ne,
}
use rpi_nest_api.Exec.{ok, err, unauthorized}
use rpi_nest_api.Json.{Fields}
use rpi_nest_api.Roles.{admin_user_name}
use rpi_nest_api.Users
use rpi_nest_api.Users.{UserStore, UserData}
use rpi_nest_api.Settings.{SettingsStore}
use rpi_nest_api.Auth.Crypto.{AccessTokenPayload}
use rpi_nest_api.Auth.Service.{World}
use rpi_nest_api.Auth.Service.Login.{payload_of, not_authenticated}
use rpi_nest_api.Auth.Service as Service
use rpi_nest_api.Auth.UserService.{UserDto, UserRequest, put, delete, handle, remove}
use rpi_nest_api.Auth.UserService.Accounts.{create_lem}
use rpi_nest_api.Auth.Guard.{Context, can_activate}
use rpi_nest_api.Auth.Guard.Decision.{IsPublic, HasToken, can_activate_public, can_activate_valid}
use rpi_nest_api.Auth.Guard.Rights.{MayAccess}
use rpi_nest_api.Auth.Guard.Session.{bearer_header, bearer-HasToken}
use rpi_nest_api.Routes.{endpoint}
use rpi_nest_api.Routes.Access.{IsAdmin}
use rpi_nest_api.Api.{
  Request, Packages, login, change_user, checked, body_of, route_of, perform, answer,
}

admin-MayAccess : (c : Context) (p : AccessTokenPayload) → IsAdmin p → MayAccess c p
admin-MayAccess c p (inl named) = inl named
admin-MayAccess c p (inr role) = inr (inl role)

-- The payload of the tokens of a user who was created at a time.
abbrev pub created_payload : ℕ → UserDto → AccessTokenPayload
created_payload now dto = record { sub = dto.login; roles = some dto.roles; modified = now }

-- The pipe accepts the request's body.
abbrev pub IsChecked : Packages → Request → Type 0
IsChecked packages r =
    (fs : Fields) × (checked packages.checks (body_of packages.checks r.action) r.body ≡ ok fs)

-- A login request whose body the pipe accepts
abbrev pub IsLogin : Packages → Request → String → String → Type 0
IsLogin packages r k password = (r.action ≡ login k password) × IsChecked packages r

-- A request to the user controller that an administrator's valid token comes with and whose body
-- the pipe accepts
abbrev pub IsAdminsChange : Packages → Request → UserRequest → Type 0
IsAdminsChange packages r u =
    (r.action ≡ change_user u)
    × ((p : AccessTokenPayload) × HasToken packages.jwt r.now r.authorization p × IsAdmin p)
    × IsChecked packages r

module _ {U T : Type 0} (packages : Packages) (db : UserStore U) (settings : SettingsStore T) where
  answered :
      (r : Request) (w : World U T)
      → can_activate packages.reflector packages.lodash packages.jwt r.now
          (endpoint (route_of r.action)).context
          r.authorization
        ≡ ok true
      → IsChecked packages r
      → answer packages db settings r w ≡ perform packages db settings r.now r.salt r.action w
  unfolding answer
  answered r w e (fs, c) = rw (e, c)

  -- The token's rights are enough, whatever the stores hold.
  token_answered :
      (r : Request) (w : World U T) (p : AccessTokenPayload)
      → HasToken packages.jwt r.now r.authorization p
      → MayAccess (endpoint (route_of r.action)).context p
      → IsChecked packages r
      → answer packages db settings r w ≡ perform packages db settings r.now r.salt r.action w
  token_answered r w p t m c =
      answered r w
        ((can_activate_valid packages.reflector packages.lodash packages.jwt r.now _ r.authorization
            p t).1
          (inr m))
        c

  abbrev pub Answers : Request → World U T → Option String → World U T → Type 0
  Answers r w o w' = answer packages db settings r w ≡ (ok o, w')

  login_answered :
      (r : Request) (k password : String) (w : World U T)
      → IsLogin packages r k password
      → answer packages db settings r w
        ≡ perform packages db settings r.now r.salt (login k password) w
  login_answered r k password w (e, c) =
      answered r w
        (can_activate_public packages.reflector packages.lodash packages.jwt r.now _ r.authorization
          (rw e refl))
        c
      ∙ rw e refl

  change_answered :
      (r : Request) (u : UserRequest) (w : World U T)
      → IsAdminsChange packages r u
      → answer packages db settings r w
        ≡ perform packages db settings r.now r.salt (change_user u) w
  change_answered r u w (e, (p, t, a), c) =
      token_answered r w p t (admin-MayAccess (endpoint (route_of r.action)).context p a) c
      ∙ rw e refl

  -- An administrator's request to create a user under a free login is answered. A later login with
  -- the user's password is answered with a token, which until it expires opens exactly the public
  -- routes and those that the requested roles may access. No other user and no setting changes.
  pub put-login :
      (r q : Request) (now salt t : ℕ) (dto : UserDto) (c : Context) (w : World U T)
      → IsAdminsChange packages r (put now salt dto)
      → IsLogin packages q dto.login dto.password
      → dto.login ≢ admin_user_name
      → db.get w.users dto.login ≡ none
      → q.now ≤ t
      → t < q.now + packages.jwt.lifetime
      → (w' : World U T) × (token : String) × Answers r w none w'
        × Answers q w' (some token) w'
        × ((can_activate packages.reflector packages.lodash packages.jwt t c
                (some (bearer_header token))
              ≡ ok true)
            ↔ (IsPublic c ⊎ MayAccess c (created_payload now dto)))
        × ((j : String) → j ≢ dto.login → db.get w'.users j ≡ db.get w.users j)
        × (w'.settings ≡ w.settings)
  unfolding perform handle
  put-login r q now salt t dto c w change log_in free missing le lt =
      let (s', done, account) =
        create_lem db settings packages.bcrypt now salt dto w.users free missing in
      let payload = created_payload now dto in
      (
        record { users = s'; settings = w.settings },
        packages.jwt.sign q.now payload,
        change_answered r (put now salt dto) w change ∙ rw done refl,
        login_answered q dto.login dto.password _ log_in
            ∙ rw (account.can_login w.settings packages.jwt q.now) refl,
        can_activate_valid packages.reflector packages.lodash packages.jwt t c _ payload
            (bearer-HasToken packages.jwt q.now t payload le lt),
        account.others,
        refl,
      )

  -- An administrator's request to remove a user is answered, and no other user and no setting
  -- changes. A later login under this name is refused, whatever the password. But a request with a
  -- token that the user got before is still performed until the token expires, if the pipe accepts
  -- it and the user's roles may access its route.
  pub delete-login :
      (r q old : Request) (k password : String) (u : UserData) (issued : ℕ) (w : World U T)
      → IsAdminsChange packages r (delete k)
      → k ≢ admin_user_name
      → db.get w.users k ≡ some u
      → IsLogin packages q k password
      → old.authorization ≡ some (bearer_header (packages.jwt.sign issued (payload_of k u)))
      → issued ≤ old.now
      → old.now < issued + packages.jwt.lifetime
      → MayAccess (endpoint (route_of old.action)).context (payload_of k u)
      → IsChecked packages old
      → (w' : World U T) × Answers r w none w'
        × (answer packages db settings q w' ≡ (err unauthorized, w'))
        × (answer packages db settings old w'
            ≡ perform packages db settings old.now old.salt old.action w')
        × ((j : String) → j ≢ k → db.get w'.users j ≡ db.get w.users j)
        × (w'.settings ≡ w.settings)
  unfolding perform handle remove Users.remove Service.login
  delete-login r q old k password u issued w change free stored log_in e le lt m c =
      let w' : World U T = record { users = db.remove w.users k; settings = w.settings } in
      (
        w',
        change_answered r (delete k) w change
            ∙ rw (eq-false_of_ne k admin_user_name free, db.does_exist_lem w.users k, stored) refl,
        login_answered q k password w' log_in
            ∙ rw
                (not_authenticated db settings packages.bcrypt w' k password
                  (λ v a. cc (a.0, db.get-remove_self w.users k)))
                refl,
        token_answered old w' (payload_of k u)
            (rw e (bearer-HasToken packages.jwt issued old.now (payload_of k u) le lt)) m c,
        λ j h. db.get-remove_other w.users k j h,
        refl,
      )
