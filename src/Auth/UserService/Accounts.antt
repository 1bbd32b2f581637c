-- ===== src/Auth/UserService/Accounts.antt =====
-- The life of an account: who is created can log in, and an update keeps the password.
use rpi_nest_api.Prelude.{
  ℕ, String, true, ◌≡◌, ◌≢◌, none, some, List, [], ◌∷◌, eq-false_of_ne, or_else,
}
use rpi_nest_api.Exec.{ok}
use rpi_nest_api.Roles.{AccessRole, admin_user_name}
use rpi_nest_api.Users
use rpi_nest_api.Users.{UserStore, UserData, or_keep, new_user, merge}
use rpi_nest_api.Settings.{SettingsStore}
use rpi_nest_api.Auth.Crypto.{Bcrypt, Jwt, hash_password}
use rpi_nest_api.Auth.Service.{login}
use rpi_nest_api.Auth.Service.Login.{login_authenticated}
use rpi_nest_api.Auth.UserService.{UserDto, UpdateUserDto, create, update, create_admin, admin_data}

module _ {U T : Type 0} (db : UserStore U) (settings : SettingsStore T) (bcrypt : Bcrypt) where
  -- A login with this password gives a token for these roles, and no other user differs from `s`.
  pub record HasAccount (s s' : U) (k password : String) (roles : List AccessRole) (modified : ℕ)
      : Type 0 where
    pub can_login :
        (t : T) (jwt : Jwt) (later : ℕ)
        → login db settings bcrypt jwt later k password (record { users = s'; settings = t }) ≡ (
          ok (jwt.sign later (record { sub = k; roles = some roles; modified = modified })),
          record { users = s'; settings = t },
        )
    pub others : (j : String) → j ≢ k → db.get s' j ≡ db.get s j

  HasAccount-put :
      (s : U) (k password : String) (u : UserData)
      → bcrypt.compare password u.password_hash ≡ true
      → HasAccount s (db.put s k u) k password u.roles u.modified
  HasAccount-put s k password u c = record {
    can_login = λ t jwt later.
        login_authenticated db settings bcrypt jwt later
          (record { users = db.put s k u; settings = t }) k password u (db.get-put_self s k u, c);
    others = λ j h. db.get-put_other s k j u h;
  }

  abbrev created_data : ℕ → UserDto → Users.CreateUserData
  created_data salt dto = record {
    password_hash = hash_password bcrypt salt dto.password;
    description = dto.description;
    roles = dto.roles;
  }

  -- A new user under a free login can log in with its password and has the requested roles.
  pub create_lem :
      (now salt : ℕ) (dto : UserDto) (s : U)
      → dto.login ≢ admin_user_name
      → db.get s dto.login ≡ none
      → (s' : U) × (create db bcrypt now salt dto s ≡ (ok tt, s'))
        × HasAccount s s' dto.login dto.password dto.roles now
  unfolding create Users.create
  create_lem now salt dto s free missing = (
    db.put s dto.login (new_user now dto.login (created_data salt dto)),
    rw (eq-false_of_ne dto.login admin_user_name free, db.does_exist_lem s dto.login, missing),
    HasAccount-put s dto.login dto.password _ (bcrypt.compare-hash dto.password 10 salt),
  )

  -- An update keeps the password, and changes the roles if it names any.
  pub update_lem :
      (now : ℕ) (k password : String) (dto : UpdateUserDto) (u : UserData) (s : U)
      → k ≢ admin_user_name
      → dto.login ≡ some k
      → db.get s k ≡ some u
      → bcrypt.compare password u.password_hash ≡ true
      → (s' : U) × (update db now dto s ≡ (ok tt, s'))
        × HasAccount s s' k password (or_else dto.roles u.roles) now
  unfolding update Users.update
  update_lem now k password dto u s free e stored c = (
    db.put s k (
        merge now u
          (record { password_hash = none; description = dto.description; roles = dto.roles })),
    rw (e, eq-false_of_ne k admin_user_name free, stored),
    HasAccount-put s k password _ c,
  )

  -- The administrator is created once, with the device's password.
  pub create_admin_lem :
      (now salt : ℕ) (password : String) (s : U)
      → db.get s admin_user_name ≡ none
      → (s' : U) × (create_admin db bcrypt now salt (ok password) s ≡ (ok tt, s'))
        × HasAccount s s' admin_user_name password (AccessRole.admin ∷ []) now
  unfolding create_admin Users.create
  create_admin_lem now salt password s missing = (
    db.put s admin_user_name
        (new_user now admin_user_name (admin_data (hash_password bcrypt salt password))),
    rw (db.does_exist_lem s admin_user_name, missing),
    HasAccount-put s admin_user_name password _ (bcrypt.compare-hash password 10 salt),
  )
