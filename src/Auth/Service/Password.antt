-- ===== src/Auth/Service/Password.antt =====
-- What `updatePassword` and `resetAdminPassword` change, and what a user can do afterwards.
use rpi_nest_api.Prelude.{Bool, inl, inr, ◌⊎◌, ℕ, String, true, false, ◌≡◌, ◌≢◌, refl, some}
use rpi_nest_api.Exec.{Exception, Result, ok, err, unauthorized, forbidden}
use rpi_nest_api.Roles.{admin_user_name}
use rpi_nest_api.Users.{UserData, UserStore, update}
use rpi_nest_api.Settings.{SettingsStore, authentication, for}
use rpi_nest_api.Auth.Crypto.{Bcrypt, Jwt, hash_password}
use rpi_nest_api.Auth.Service.{
  World, login, update_user_password, update_password, reset_admin_password,
}
use rpi_nest_api.Auth.Service.Login.{
  authentication_cases, Authenticates, payload_of, authenticated, not_authenticated,
  login_authenticated,
}

module _ {U T : Type 0} (db : UserStore U) (settings : SettingsStore T) (bcrypt : Bcrypt) where
  -- The user with a new hash and time.
  abbrev pub with_hash : ℕ → String → UserData → UserData
  with_hash now h u = record u { password_hash = h; modified = now }

  -- From `w` to `w'` the user `k` got the password, and nothing else changed: the user can log in
  -- with it and keeps its roles.
  pub record GotPassword (now : ℕ) (k password : String) (u : UserData) (w w' : World U T)
      : Type 0 where
    pub can_login :
        (jwt : Jwt) (later : ℕ)
        → login db settings bcrypt jwt later k password w'
          ≡ (ok (jwt.sign later (payload_of k (record u { modified = now }))), w')
    pub others : (j : String) → j ≢ k → db.get w'.users j ≡ db.get w.users j
    pub same_settings : w'.settings ≡ w.settings

  update_user_password_lem :
      (now salt : ℕ) (k password : String) (u : UserData) (w : World U T)
      → db.get w.users k ≡ some u
      → (w' : World U T) × (update_user_password db settings bcrypt now salt k password w
          ≡ (ok tt, w'))
        × GotPassword now k password u w w'
  unfolding update_user_password update
  update_user_password_lem now salt k password u w e = (
    record w { users = db.put w.users k v },
    rw e,
    record {
      can_login = λ jwt later.
          login_authenticated db settings bcrypt jwt later _ k password v
            (db.get-put_self w.users k v, bcrypt.compare-hash password 10 salt);
      others = λ j h. db.get-put_other w.users k j v h;
      same_settings = refl;
    },
  )
    where
      v : UserData
      v = with_hash now (hash_password bcrypt salt password) u

  -- A user whose current password is right gets the new one: it can log in with it and keeps its
  -- roles, and no other user and no setting changes.
  update_password_accepted :
      (now salt : ℕ) (k current new : String) (u : UserData) (w : World U T)
      → Authenticates db settings bcrypt w k current u
      → (w' : World U T) × (update_password db settings bcrypt now salt k current new w
          ≡ (ok tt, w'))
        × GotPassword now k new u w w'
  unfolding update_password
  update_password_accepted now salt k current new u w a =
      rw (authenticated db settings bcrypt w k current u a)
        (update_user_password_lem now salt k new u w a.0)

  -- With wrong credentials `updatePassword` throws `UnauthorizedException` and changes nothing.
  update_password_refused :
      (now salt : ℕ) (k current new : String) (w : World U T)
      → ((u : UserData) → Authenticates db settings bcrypt w k current u → ⊥)
      → update_password db settings bcrypt now salt k current new w ≡ (err unauthorized, w)
  unfolding update_password
  update_password_refused now salt k current new w h =
      rw (not_authenticated db settings bcrypt w k current h)

  -- If the setting allows a reset and the account "admin" is stored, the reset succeeds with any
  -- default password: "admin" can log in with it and keeps its roles, and no other user and no setting
  -- changes.
  reset_admin_password_enabled :
      (now salt : ℕ) (password : String) (u : UserData) (w : World U T)
      → settings.get w.settings authentication
        ≡ some (record { is_admin_password_reset_enabled = true })
      → db.get w.users admin_user_name ≡ some u
      → (w' : World U T) × (reset_admin_password db settings bcrypt now salt (ok password) w
          ≡ (ok tt, w'))
        × GotPassword now admin_user_name password u w w'
  unfolding reset_admin_password for
  reset_admin_password_enabled now salt password u w e p =
      rw e (update_user_password_lem now salt admin_user_name password u w p)

  -- If the setting forbids a reset, it throws `ForbiddenException` and changes nothing, whatever the
  -- default password would have been.
  reset_admin_password_disabled :
      (now salt : ℕ) (password : Result String) (w : World U T)
      → settings.get w.settings authentication
        ≡ some (record { is_admin_password_reset_enabled = false })
      → reset_admin_password db settings bcrypt now salt password w
        ≡ (err (forbidden "Password reset is forbidden"), w)
  unfolding reset_admin_password for
  reset_admin_password_disabled now salt password w e = rw e

  -- `updatePassword` either gets the right current password of a stored user: then it succeeds, the
  -- user can log in with the new password and keeps its roles, and no other user and no setting
  -- changes; or it throws `UnauthorizedException` and changes nothing.
  pub update_password_lem :
      (now salt : ℕ) (k current new : String) (w : World U T)
      → ((u : UserData) × Authenticates db settings bcrypt w k current u
          × ((w' : World U T) × (update_password db settings bcrypt now salt k current new w
                ≡ (ok tt, w'))
              × GotPassword now k new u w w'))
        ⊎ (((u : UserData) → Authenticates db settings bcrypt w k current u → ⊥)
            × (update_password db settings bcrypt now salt k current new w ≡ (err unauthorized, w)))
  update_password_lem now salt k current new w =
      elim (authentication_cases db settings bcrypt w k current) [
        | inl (u, a) ↦ inl (u, a, update_password_accepted now salt k current new u w a)
        | inr h ↦ inr (h, update_password_refused now salt k current new w h)
      ]

  reset_admin_password_unknown :
      (now salt : ℕ) (e : Exception) (w : World U T)
      → settings.get w.settings authentication
        ≡ some (record { is_admin_password_reset_enabled = true })
      → reset_admin_password db settings bcrypt now salt (err e) w ≡ (err e, w)
  unfolding reset_admin_password for
  reset_admin_password_unknown now salt e w s = rw s

  -- If the account "admin" is stored and the setting is initialised, a reset has two outcomes. If
  -- the setting allows it and the default password can be read, "admin" can log in with that
  -- password and keeps its roles, and no other user and no setting changes. Otherwise it throws and
  -- changes nothing.
  pub reset_admin_password_lem :
      (now salt : ℕ) (enabled : Bool) (password : Result String) (u : UserData) (w : World U T)
      → settings.get w.settings authentication
        ≡ some (record { is_admin_password_reset_enabled = enabled })
      → db.get w.users admin_user_name ≡ some u
      → ((p : String) × (enabled ≡ true)
          × (password ≡ ok p)
          × ((w' : World U T) × (reset_admin_password db settings bcrypt now salt password w
                ≡ (ok tt, w'))
              × GotPassword now admin_user_name p u w w'))
        ⊎ ((e : Exception) × ((enabled ≡ false) ⊎ (password ≡ err e))
            × (reset_admin_password db settings bcrypt now salt password w ≡ (err e, w)))
  reset_admin_password_lem now salt false password u w s a =
      inr (_, inl refl, reset_admin_password_disabled now salt password w s)
  reset_admin_password_lem now salt true (err e) u w s a =
      inr (e, inr refl, reset_admin_password_unknown now salt e w s)
  reset_admin_password_lem now salt true (ok p) u w s a =
      inl (p, refl, refl, reset_admin_password_enabled now salt p u w s a)
