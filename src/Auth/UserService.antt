-- ===== src/Auth/UserService.antt =====
-- src/authentication/user/user.service.ts and the commands of src/authentication/user/cli. The
-- state is that of the store of users; the time and the salt of a call are arguments.
use rpi_nest_api.Prelude.{
  ℕ, String, Bool, false, not, Option, none, some, List, [], ◌∷◌, ◌++◌, map, ◌==◌, template,
  if◌then◌else◌,
}
use rpi_nest_api.Exec.{
  Void, Result, ok, err, Exec, error, bad_request, forbidden, pure, throw, throw_if, lift, gets,
  ◌>>=◌, ◌>>◌,
}
use rpi_nest_api.Roles.{AccessRole, admin, user, read_only, admin_user_name}
use rpi_nest_api.Users
use rpi_nest_api.Users.{UserData, UserStore}
use rpi_nest_api.Auth.Crypto.{Bcrypt, hash_password}
pub mod Reserved
pub mod Accounts
pub mod RoleOption

-- UserDto
pub record UserDto : Type 0 where
  pub login : String
  pub password : String
  pub roles : List AccessRole
  pub description : Option String

-- UpdateUserDto
pub record UpdateUserDto : Type 0 where
  pub login : Option String
  pub roles : Option (List AccessRole)
  pub description : Option String

-- ListUserDto: a stored user without its `passwordHash`
pub record ListUserDto : Type 0 where
  pub login : String
  pub roles : List AccessRole
  pub description : Option String
  pub created : ℕ
  pub modified : ℕ

-- `delete x.passwordHash`
abbrev pub without_hash : UserData → ListUserDto
without_hash u = record {
  login = u.login;
  roles = u.roles;
  description = u.description;
  created = u.created;
  modified = u.modified;
}

abbrev pub not_created : String
not_created = template ("Login \"" ∷ admin_user_name ∷ "\" is reserved and cannot be created" ∷ [])

abbrev pub not_removed : String
not_removed = template ("Login \"" ∷ admin_user_name ∷ "\" is reserved and cannot be removed" ∷ [])

abbrev pub admin_data : String → Users.CreateUserData
admin_data password_hash = record {
  password_hash = password_hash;
  description = some "The default admin user";
  roles = admin ∷ [];
}

module _ {U : Type 0} (db : UserStore U) where
  unfoldable pub get_all_users : Exec U (List ListUserDto)
  get_all_users = do all_users ← Users.get_all db; pure (map without_hash all_users)

  unfoldable pub create : Bcrypt → ℕ → ℕ → UserDto → Exec U Void
  create bcrypt now salt u = do
    throw_if (u.login == admin_user_name) (forbidden not_created)
    let password_hash = hash_password bcrypt salt u.password
    Users.create db now u.login
        (record { password_hash = password_hash; description = u.description; roles = u.roles })

  abbrev pub update_known : ℕ → String → UpdateUserDto → Exec U Void
  update_known now login c = do
    throw_if (login == admin_user_name) (forbidden not_created)
    Users.update db now login
        (record { password_hash = none; description = c.description; roles = c.roles })

  unfoldable pub update : ℕ → UpdateUserDto → Exec U Void
  update now c = elim c.login [
    | none ↦ throw (bad_request "Username not provided")
    | some login ↦ update_known now login c
  ]

  unfoldable pub remove : String → Exec U Void
  remove login = do
    throw_if (login == admin_user_name) (forbidden not_removed)
    Users.remove db login

  unfoldable pub create_admin : Bcrypt → ℕ → ℕ → Result String → Exec U Void
  create_admin bcrypt now salt device_password = do
    default_password ← lift device_password
    let password_hash = hash_password bcrypt salt default_password
    Users.create db now admin_user_name (admin_data password_hash)

-- A text as a role: `ACCESS_ROLES.includes(role)`
unfoldable pub role_of : String → Option AccessRole
role_of text =
    if text == "admin"
    then some admin
    else if text == "user"
    then some user
    else if text == "read-only"
    then some read_only
    else none

-- `AddUserCommand.getRoles`: one value of the option, with the roles read so far
unfoldable pub get_roles : String → List AccessRole → Result (List AccessRole)
unfolding role_of
get_roles text all_roles = elim (role_of text) [
  | some role ↦ ok (all_roles ++ role ∷ [])
  | none ↦ err (error "Error parsing roles.")
]

-- The option `--roles` with its values, each of which is read in turn
unfoldable pub parse_roles : List String → List AccessRole → Result (List AccessRole)
parse_roles [] all_roles = ok all_roles
parse_roles (text ∷ texts) all_roles = elim (get_roles text all_roles) [
  | ok roles ↦ parse_roles texts roles
  | err e ↦ err e
]

-- The options of the command `users add`.
pub record AddUserOptions : Type 0 where
  pub username : String
  pub password : String
  pub roles : List String
  pub description : Option String

module _ {U : Type 0} (db : UserStore U) where
  unfoldable pub run_add_user : Bcrypt → ℕ → ℕ → AddUserOptions → Exec U Void
  unfolding parse_roles get_roles create
  run_add_user bcrypt now salt options = do
    roles ← lift (parse_roles options.roles [])
    create db bcrypt now salt (record {
      login = options.username;
      password = options.password;
      roles = roles;
      description = options.description;
    })

-- The requests to `UserController` that change users, with the time and the salt of each.
pub data UserRequest : Type 0 where
  put : (now salt : ℕ) → UserDto → UserRequest
  patch : (now : ℕ) → UpdateUserDto → UserRequest
  delete : String → UserRequest

module _ {U : Type 0} (db : UserStore U) (bcrypt : Bcrypt) where
  unfoldable pub handle : UserRequest → Exec U Void
  unfolding create update remove
  handle (put now salt u) = create db bcrypt now salt u
  handle (patch now c) = update db now c
  handle (delete login) = remove db login

  -- The store after some requests, of which any may have thrown.
  unfoldable pub serve : List UserRequest → U → U
  unfolding handle
  serve [] s = s
  serve (r ∷ rs) s = serve rs (handle r s).1
