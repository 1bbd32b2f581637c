-- ===== src/Api/Confines.antt =====
-- Methods that change no user but the password of 'admin', and no setting but the metadata.
use rpi_nest_api.Prelude.{
  not, ℕ, String, Bool, true, false, ◌≡◌, ◌≢◌, inl, inr, refl, ap, ◌∙◌, Option, none, some, List,
  Option-cases,
}
use rpi_nest_api.Exec.{
  forbidden, Exception, Result, ok, err, Exec, continue, throw, pure, lift, throw_if, ◌>>=◌,
}
use rpi_nest_api.Roles.{AccessRole, admin_user_name}
use rpi_nest_api.Users.{UserData, UserStore, update}
use rpi_nest_api.Settings.{
  SettingsKey, SettingsStore, PartialMetadata, metadata, authentication, for,
}
use rpi_nest_api.Auth.Crypto.{Jwt, Bcrypt}
use rpi_nest_api.Auth.Service as Service
use rpi_nest_api.Auth.Service.{World, on_settings, reset_admin_password, update_user_password}
use rpi_nest_api.Auth.Service.Login.{login_lem}
use rpi_nest_api.Device.Metadata.{set_meta_data}
use rpi_nest_api.Api.{allowed}

abbrev pub roles_of : Option UserData → Option (List AccessRole)
roles_of none = none
roles_of (some u) = some u.roles

module _ {U T : Type 0} (db : UserStore U) (settings : SettingsStore T) where
  -- From one state of the stores to another, no user but 'admin' changed, the account 'admin' was not
  -- created or removed and kept its roles, and no setting but the metadata changed.
  pub record Confined (w w' : World U T) : Type 0 where
    pub users : (k : String) → k ≢ admin_user_name → db.get w'.users k ≡ db.get w.users k
    pub admin_roles :
        roles_of (db.get w'.users admin_user_name) ≡ roles_of (db.get w.users admin_user_name)
    pub others :
        (k : SettingsKey) → k ≢ metadata → settings.get w'.settings k ≡ settings.get w.settings k

  pub Confined-refl : (w : World U T) → Confined w w
  Confined-refl w = record { users = λ k h. refl; admin_roles = refl; others = λ k h. refl }

  Confined-of_eq : (w w' : World U T) → w' ≡ w → Confined w w'
  Confined-of_eq w w' e = rw e (Confined-refl w)

  pub Confined-trans : (w w' w'' : World U T) → Confined w w' → Confined w' w'' → Confined w w''
  Confined-trans w w' w'' c d = record {
    users = λ k h. d.users k h ∙ c.users k h;
    admin_roles = d.admin_roles ∙ c.admin_roles;
    others = λ k h. d.others k h ∙ c.others k h;
  }

  pub record Confines {A : Type 0} (m : Exec (World U T) A) : Type 0 where
    pub at : (w : World U T) → Confined w (m w).1

  Confines-throw : {A : Type 0} (e : Exception) → Confines {A = A} (throw e)
  Confines-throw e = record { at = λ w. Confined-refl w }

  pub Confines-pure : {A : Type 0} (a : A) → Confines (pure a)
  Confines-pure a = record { at = λ w. Confined-refl w }

  pub Confines-lift : {A : Type 0} (r : Result A) → Confines (lift r)
  Confines-lift r = record { at = λ w. Confined-refl w }

  Confines-continue :
      {A B : Type 0} (r : Result A) (f : A → Exec (World U T) B)
      → ((a : A) → Confines (f a))
      → Confines (λ w. continue r f w)
  Confines-continue (ok a) f g = g a
  Confines-continue (err e) f g = record { at = λ w. Confined-refl w }

  pub Confines-bind :
      {A B : Type 0} (m : Exec (World U T) A) (f : A → Exec (World U T) B)
      → Confines m
      → ((a : A) → Confines (f a))
      → Confines (m >>= f)
  Confines-bind m f c g = record {
    at = λ w. Confined-trans w (m w).1 _ (c.at w) ((Confines-continue (m w).0 f g).at (m w).1);
  }

  Confines-throw_if : (b : Bool) (e : Exception) → Confines (throw_if b e)
  Confines-throw_if true e = Confines-throw e
  Confines-throw_if false e = Confines-pure tt

  pub Confines-allowed : (r : Result Bool) → Confines (allowed r)
  Confines-allowed (ok true) = Confines-pure tt
  Confines-allowed (ok false) = Confines-throw _
  Confines-allowed (err e) = Confines-throw e

  -- A new password of 'admin' keeps its roles.
  update_user_password-Confines :
      (bcrypt : Bcrypt) (now salt : ℕ) (password : String)
      → Confines (update_user_password db settings bcrypt now salt admin_user_name password)
  unfolding update_user_password update
  update_user_password-Confines bcrypt now salt password = record {
    at = λ w. elim (Option-cases (db.get w.users admin_user_name)) [
      | inl e ↦ rw e (Confined-refl w)
      | inr (u, e) ↦ rw e (record {
        users = λ k h. db.get-put_other w.users admin_user_name k _ h;
        admin_roles = rw (db.get-put_self w.users admin_user_name _, e);
        others = λ k h. refl;
      })
    ];
  }

  get-Confines : Confines (on_settings {U = U} ((for settings authentication).get))
  unfolding for
  get-Confines = record {
    at = λ w. elim (Option-cases (settings.get w.settings authentication)) [
      | inl e ↦ rw e (Confined-refl w)
      | inr (v, e) ↦ rw e (Confined-refl w)
    ];
  }

  pub reset-Confines :
      (bcrypt : Bcrypt) (now salt : ℕ) (password : Result String)
      → Confines (reset_admin_password db settings bcrypt now salt password)
  unfolding reset_admin_password
  reset-Confines bcrypt now salt password =
      Confines-bind (on_settings ((for settings authentication).get)) _ get-Confines λ stored.
        Confines-bind
          (throw_if (not stored.is_admin_password_reset_enabled)
            (forbidden "Password reset is forbidden"))
          _ (Confines-throw_if _ _)
          λ _.
            Confines-bind (lift password) _ (Confines-lift password)
              λ default_password. update_user_password-Confines bcrypt now salt default_password

  pub set_meta_data-Confines :
      (c : PartialMetadata) → Confines (on_settings {U = U} (set_meta_data settings c))
  unfolding set_meta_data for
  set_meta_data-Confines c = record {
    at = λ w. elim (Option-cases (settings.get w.settings metadata)) [
      | inl e ↦ rw e (Confined-refl w)
      | inr (v, e) ↦ rw e (record {
        users = λ k h. refl;
        admin_roles = refl;
        others = λ k h. settings.get-put_other w.settings metadata k _ h;
      })
    ];
  }

  pub login-Confines :
      (bcrypt : Bcrypt) (jwt : Jwt) (now : ℕ) (username password : String)
      → Confines (Service.login db settings bcrypt jwt now username password)
  login-Confines bcrypt jwt now username password = record {
    at = λ w. elim (login_lem db settings bcrypt jwt now w username password) [
      | inl (u, a, e) ↦ Confined-of_eq w _ (ap (λ q. q.1) e)
      | inr (n, e) ↦ Confined-of_eq w _ (ap (λ q. q.1) e)
    ];
  }
