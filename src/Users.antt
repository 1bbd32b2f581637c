-- ===== src/Users.antt =====
-- src/datastore/user-repository/user.repository.ts: the repository of the API's users. The
-- database of users is a parameter, and so is the time that `Date.now()` returns. Logging is left
-- out. A property of a `Partial` object is `none` where the object has no such property; no caller
-- passes one that is present and undefined.
use rpi_nest_api.Prelude.{
  ℕ, String, not, ◌≡◌, Option, none, some, List, [], ◌∷◌, map, or_else, includes_text,
}
use rpi_nest_api.Exec.{Void, Result, Exec, error, pure, throw, gets, modify, throw_if, ◌>>=◌, ◌>>◌}
use rpi_nest_api.Database.{Database}
use rpi_nest_api.Roles.{AccessRole}
pub mod Directory
pub mod Turns
pub mod WellFormed
pub mod Listing

-- IUserData
pub record UserData : Type 0 where
  pub login : String
  pub password_hash : String
  pub description : Option String
  pub roles : List AccessRole
  pub created : ℕ
  pub modified : ℕ

pub record CreateUserData : Type 0 where
  pub password_hash : String
  pub description : Option String
  pub roles : List AccessRole

pub record UpdateUserData : Type 0 where
  pub password_hash : Option String
  pub description : Option String
  pub roles : Option (List AccessRole)

-- The keys of the store: logins, and the symbol under which lmdb keeps the shared structures.
pub data StoreKey : Type 0 where
  text : String → StoreKey
  symbol : String → StoreKey

-- `keys.filter((x) => typeof x === 'string')`
abbrev pub text_keys : List StoreKey → List String
text_keys [] = []
text_keys (text k ∷ ks) = k ∷ text_keys ks
text_keys (symbol _ ∷ ks) = text_keys ks

-- `xs.filter(isDefined)`
abbrev pub filter_defined {ℓ} : {A : Type ℓ} → List (Option A) → List A
filter_defined [] = []
filter_defined (none ∷ xs) = filter_defined xs
filter_defined (some x ∷ xs) = x ∷ filter_defined xs

-- The store 'users': lmdb's database with the calls that list keys and read many values.
pub record UserStore (St : Type 0) : Type 0 where
  pub database : Database St String (λ _. UserData)
  pub open database use *
  pub get_keys : St → List StoreKey
  pub get_many : St → List String → List (Option UserData)
  pub get_keys_lem :
      (s : St) (k : String) → includes_text (text_keys (get_keys s)) k ≡ database.does_exist s k
  pub get_many_lem : (s : St) (ks : List String) → get_many s ks ≡ map (database.get s) ks

-- { ...data, login, created: now, modified: now }
abbrev pub new_user : ℕ → String → CreateUserData → UserData
new_user now login c = record {
  login = login;
  password_hash = c.password_hash;
  description = c.description;
  roles = c.roles;
  created = now;
  modified = now;
}

abbrev pub or_keep : Option String → Option String → Option String
or_keep none old = old
or_keep (some x) _ = some x

-- { ...user, ...data, modified: now }
abbrev pub merge : ℕ → UserData → UpdateUserData → UserData
merge now u c = record u {
  password_hash = or_else c.password_hash u.password_hash;
  description = or_keep c.description u.description;
  roles = or_else c.roles u.roles;
  modified = now;
}

-- The calls that change the store, each with its time.
pub data Call : Type 0 where
  create_call : ℕ → String → CreateUserData → Call
  update_call : ℕ → String → UpdateUserData → Call
  remove_call : ℕ → String → Call

module _ {St : Type 0} (db : UserStore St) where
  unfoldable pub get_by_login : String → Exec St (Option UserData)
  get_by_login login = gets (λ s. db.get s login)

  unfoldable pub get_all : Exec St (List UserData)
  get_all = do
    all_user_keys ← gets (λ s. text_keys (db.get_keys s))
    all_users ← gets (λ s. db.get_many s all_user_keys)
    pure (filter_defined all_users)

  unfoldable pub create : ℕ → String → CreateUserData → Exec St Void
  create now login c = do
    exists ← gets (λ s. db.does_exist s login)
    throw_if exists (error "User already exists")
    modify (λ s. db.put s login (new_user now login c))

  abbrev pub update_found : ℕ → String → UpdateUserData → Option UserData → Exec St Void
  update_found now login c none = throw (error "Could not update unknown user")
  update_found now login c (some user) = modify (λ s. db.put s login (merge now user c))

  unfoldable pub update : ℕ → String → UpdateUserData → Exec St Void
  unfolding get_by_login
  update now login c = do user ← get_by_login login; update_found now login c user

  unfoldable pub remove : String → Exec St Void
  remove login = do
    exists ← gets (λ s. db.does_exist s login)
    throw_if (not exists) (error "Could not remove unknown user")
    modify (λ s. db.remove s login)

  unfoldable pub perform : Call → Exec St Void
  unfolding create update remove
  perform (create_call now login c) = create now login c
  perform (update_call now login c) = update now login c
  perform (remove_call now login) = remove login

  -- A sequence of requests: an exception ends its own request only.
  unfoldable pub perform_all : List Call → St → List (Result Void) × St
  unfolding perform
  perform_all [] s = ([], s)
  perform_all (c ∷ cs) s =
      let (r, s') = perform c s in let (rs, s'') = perform_all cs s' in (r ∷ rs, s'')
