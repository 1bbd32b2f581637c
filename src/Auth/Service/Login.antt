-- ===== src/Auth/Service/Login.antt =====
-- When `login` answers with a token, and with which one.
use rpi_nest_api.Prelude.{
  ℕ, String, true, ◌≡◌, ◌⊎◌, inl, inr, some, arith, Bool-cases, Option-cases,
}
use rpi_nest_api.Exec.{ok, err, unauthorized}
use rpi_nest_api.Users.{UserData, UserStore}
use rpi_nest_api.Settings.{SettingsStore}
use rpi_nest_api.Auth.Crypto.{Bcrypt, Jwt, AccessTokenPayload}
use rpi_nest_api.Auth.Service.{World, login, get_authenticated_user_or_throw}

abbrev pub payload_of : String → UserData → AccessTokenPayload
payload_of user_login u = record { sub = user_login; roles = some u.roles; modified = u.modified }

module _ {U T : Type 0} (db : UserStore U) (settings : SettingsStore T) (bcrypt : Bcrypt) where
  -- The credentials name a stored user and match its hash.
  abbrev pub Authenticates : World U T → String → String → UserData → Type 0
  Authenticates w user_login password u =
      (db.get w.users user_login ≡ some u) × (bcrypt.compare password u.password_hash ≡ true)

  pub authenticated :
      (w : World U T) (user_login password : String) (u : UserData)
      → Authenticates w user_login password u
      → get_authenticated_user_or_throw db settings bcrypt user_login password w ≡ (ok u, w)
  unfolding get_authenticated_user_or_throw
  authenticated w user_login password u (e, c) = rw (e, c)

  pub not_authenticated :
      (w : World U T) (user_login password : String)
      → ((u : UserData) → Authenticates w user_login password u → ⊥)
      → get_authenticated_user_or_throw db settings bcrypt user_login password w
        ≡ (err unauthorized, w)
  unfolding get_authenticated_user_or_throw
  not_authenticated w user_login password h = elim (Option-cases (db.get w.users user_login)) [
    | inl e ↦ rw e
    | inr (u, e) ↦ elim (Bool-cases (bcrypt.compare password u.password_hash)) [
      | inl c ↦ absurd (h u (e, c))
      | inr c ↦ rw (e, c)
    ]
  ]

  pub authentication_cases :
      (w : World U T) (user_login password : String)
      → ((u : UserData) × Authenticates w user_login password u)
        ⊎ ((u : UserData) → Authenticates w user_login password u → ⊥)
  authentication_cases w user_login password = elim (Option-cases (db.get w.users user_login)) [
    | inl e ↦ inr (λ u a. cc (e, a.0))
    | inr (u, e) ↦ elim (Bool-cases (bcrypt.compare password u.password_hash)) [
      | inl c ↦ inl (u, (e, c))
      | inr c ↦ inr (λ v a. ground arith)
    ]
  ]

  pub login_authenticated :
      (jwt : Jwt) (now : ℕ) (w : World U T) (user_login password : String) (u : UserData)
      → Authenticates w user_login password u
      → login db settings bcrypt jwt now user_login password w
        ≡ (ok (jwt.sign now (payload_of user_login u)), w)
  unfolding login
  login_authenticated jwt now w user_login password u a =
      rw (authenticated w user_login password u a)

  -- `login` never changes the stores. It answers with a token exactly when the login names a
  -- stored user whose hash matches the password, and then with the signed token of that user's
  -- roles; otherwise it throws `UnauthorizedException`, whatever was wrong.
  pub login_lem :
      (jwt : Jwt) (now : ℕ) (w : World U T) (user_login password : String)
      → ((u : UserData) × Authenticates w user_login password u
          × (login db settings bcrypt jwt now user_login password w
              ≡ (ok (jwt.sign now (payload_of user_login u)), w)))
        ⊎ (((u : UserData) → Authenticates w user_login password u → ⊥)
            × (login db settings bcrypt jwt now user_login password w ≡ (err unauthorized, w)))
  unfolding login
  login_lem jwt now w user_login password = elim (authentication_cases w user_login password) [
    | inl (u, a) ↦ inl (u, a, login_authenticated jwt now w user_login password u a)
    | inr h ↦ inr (h, rw (not_authenticated w user_login password h))
  ]
