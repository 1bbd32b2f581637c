-- ===== src/Api/Administrator.antt =====
-- What no request can do to the account 'admin', whatever token it shows.
use rpi_nest_api.Prelude.{
  ℕ, String, Bool, true, false, ◌≡◌, ◌⊎◌, inl, inr, refl, ap, ◌∙◌, Option, none, some, List, [],
  ◌∷◌, ◌==◌, Bool-cases, Option-cases, eq_iff,
}
use rpi_nest_api.Exec.{Void, Result, ok, err, Result-cases, Exec, pure, continue, lift, ◌>>=◌}
use rpi_nest_api.Roles.{admin_user_name}
use rpi_nest_api.Users.{UserData, UserStore, update}
use rpi_nest_api.Users.Directory.{view-put}
use rpi_nest_api.Settings.{SettingsStore, authentication, for}
use rpi_nest_api.Auth.Crypto.{Bcrypt}
use rpi_nest_api.Auth.Service as Service
use rpi_nest_api.Auth.Service.{
  World, on_users, on_settings, update_user_password, update_password, reset_admin_password,
}
use rpi_nest_api.Auth.Service.Login.{
  login_lem, authentication_cases, authenticated, not_authenticated,
}
use rpi_nest_api.Auth.UserService.{handle}
use rpi_nest_api.Auth.UserService.Reserved.{handle-admin}
use rpi_nest_api.Auth.Guard.{can_activate}
use rpi_nest_api.Routes.{endpoint}
use rpi_nest_api.Device.Metadata.{set_meta_data}
use rpi_nest_api.Api.{
  Action, Request, Packages, login, reset_password, change_user, change_meta_data, checked, body_of,
  route_of, allowed, perform, answer, answer_all,
}

-- A user's record but for the password and the time of its change.
abbrev pub without_password : Option UserData → Option UserData
without_password none = none
without_password (some u) = some (record u { password_hash = ""; modified = 0 })

module _ {U T : Type 0} (db : UserStore U) (settings : SettingsStore T) where
  abbrev pub admin_account : World U T → Option UserData
  admin_account w = without_password (db.get w.users admin_user_name)

  update_user_password-admin_account :
      (bcrypt : Bcrypt) (now salt : ℕ) (k password : String) (w : World U T)
      → admin_account (update_user_password db settings bcrypt now salt k password w).1
        ≡ admin_account w
  unfolding update_user_password update
  update_user_password-admin_account bcrypt now salt k password w =
      elim (Option-cases (db.get w.users k)) [
        | inl e ↦ rw e refl
        | inr (u, e) ↦ elim (Bool-cases (k == admin_user_name)) [
          | inl same ↦
              let stored : Path (Option UserData) (db.get w.users admin_user_name) (some u) =
                rw ((eq_iff k admin_user_name).0 same) at e in
              rw (e, view-put db w.users k admin_user_name _, same, stored) refl
          | inr other ↦ rw (e, view-put db w.users k admin_user_name _, other) refl
        ]
      ]

  update_password-admin_account :
      (bcrypt : Bcrypt) (now salt : ℕ) (k current new : String) (w : World U T)
      → admin_account (update_password db settings bcrypt now salt k current new w).1
        ≡ admin_account w
  unfolding update_password
  update_password-admin_account bcrypt now salt k current new w =
      elim (authentication_cases db settings bcrypt w k current) [
        | inl (u, a) ↦
            rw (authenticated db settings bcrypt w k current u a)
              (update_user_password-admin_account bcrypt now salt k new w)
        | inr h ↦ rw (not_authenticated db settings bcrypt w k current h) refl
      ]

  reset-admin_account :
      (bcrypt : Bcrypt) (now salt : ℕ) (password : Result String) (w : World U T)
      → admin_account (reset_admin_password db settings bcrypt now salt password w).1
        ≡ admin_account w
  unfolding reset_admin_password for
  reset-admin_account bcrypt now salt password w =
      elim (Option-cases (settings.get w.settings authentication)) [
        | inl e ↦ rw e refl
        | inr (v, e) ↦ elim (Bool-cases v.is_admin_password_reset_enabled) [
          | inr disabled ↦ rw (e, disabled) refl
          | inl enabled ↦ elim (Result-cases password) [
            | inl (p, r) ↦
                rw (e, enabled, r)
                  (update_user_password-admin_account bcrypt now salt admin_user_name p w)
            | inr (x, r) ↦ rw (e, enabled, r) refl
          ]
        ]
      ]

  login-admin_account :
      (packages : Packages) (now : ℕ) (k password : String) (w : World U T)
      → admin_account (Service.login db settings packages.bcrypt packages.jwt now k password w).1
        ≡ admin_account w
  login-admin_account packages now k password w =
      elim (login_lem db settings packages.bcrypt packages.jwt now w k password) [
        | inl (u, a, e) ↦ rw e refl
        | inr (n, e) ↦ rw e refl
      ]

-- What follows a handler leaves the stores.
then_pure-state :
    {S A B : Type 0} (f : A → B) (r : Result A) (s : S) → (continue r (λ a. pure (f a)) s).1 ≡ s
then_pure-state f (ok a) s = refl
then_pure-state f (err e) s = refl

-- A method runs, or the guard or the pipe stops it and leaves the stores.
guarded-state :
    {S A B : Type 0} (g : Result Bool) (c : Result A) (m : Exec S B) (s : S)
    → (((allowed g >>= λ _. (lift c >>= λ _. m)) s).1 ≡ s)
      ⊎ (((allowed g >>= λ _. (lift c >>= λ _. m)) s).1 ≡ (m s).1)
guarded-state (ok true) (ok a) m s = inr refl
guarded-state (ok true) (err e) m s = inl refl
guarded-state (ok false) c m s = inl refl
guarded-state (err e) c m s = inl refl

module _ {U T : Type 0} (packages : Packages) (db : UserStore U) (settings : SettingsStore T) where
  perform-admin_account :
      (now salt : ℕ) (a : Action) (w : World U T)
      → admin_account db settings (perform packages db settings now salt a w).1
        ≡ admin_account db settings w
  unfolding perform
  perform-admin_account now salt (login k password) w =
      let m = Service.login db settings packages.bcrypt packages.jwt now k password in
      ap (admin_account db settings) (then_pure-state some (m w).0 (m w).1)
      ∙ login-admin_account db settings packages now k password w
  perform-admin_account now salt (Action.update_password k current new) w =
      let m = Service.update_password db settings packages.bcrypt now salt k current new in
      ap (admin_account db settings) (then_pure-state (λ _. none) (m w).0 (m w).1)
      ∙ update_password-admin_account db settings packages.bcrypt now salt k current new w
  perform-admin_account now salt reset_password w =
      let m = reset_admin_password db settings packages.bcrypt now salt packages.device_password in
      ap (admin_account db settings) (then_pure-state (λ _. none) (m w).0 (m w).1)
      ∙ reset-admin_account db settings packages.bcrypt now salt packages.device_password w
  perform-admin_account now salt (change_user r) w =
      let m : Exec (World U T) Void = on_users (handle db packages.bcrypt r) in
      ap (admin_account db settings) (then_pure-state (λ _. none) (m w).0 (m w).1)
      ∙ ap without_password (handle-admin db packages.bcrypt r w.users)
  perform-admin_account now salt (change_meta_data c) w =
      let m : Exec (World U T) Void = on_settings (set_meta_data settings c) in
      ap (admin_account db settings) (then_pure-state (λ _. none) (m w).0 (m w).1)

  -- A request that is not answered by its handler leaves the stores.
  answer-cases :
      (r : Request) (w : World U T)
      → ((answer packages db settings r w).1 ≡ w)
        ⊎ ((answer packages db settings r w).1
            ≡ (perform packages db settings r.now r.salt r.action w).1)
  unfolding answer
  answer-cases r w =
      guarded-state
        (can_activate packages.reflector packages.lodash packages.jwt r.now
          (endpoint (route_of r.action)).context r.authorization)
        (checked packages.checks (body_of packages.checks r.action) r.body)
        (perform packages db settings r.now r.salt r.action) w

  -- Whatever requests come in, with whatever tokens and bodies: the account 'admin' is neither
  -- created nor removed, and keeps its login, its roles, its description and the time of its
  -- creation.
  pub answer_all-admin_account :
      (rs : List Request) (w : World U T)
      → admin_account db settings (answer_all packages db settings rs w)
        ≡ admin_account db settings w
  unfolding answer_all
  answer_all-admin_account [] w = refl
  answer_all-admin_account (r ∷ rs) w =
      answer_all-admin_account rs (answer packages db settings r w).1 ∙ elim (answer-cases r w) [
        | inl e ↦ ap (admin_account db settings) e
        | inr e ↦ ap (admin_account db settings) e ∙ perform-admin_account r.now r.salt r.action w
      ]
