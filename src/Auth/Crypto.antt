-- ===== src/Auth/Crypto.antt =====
-- src/authentication/crypto/crypto.service.ts, and the packages bcrypt and @nestjs/jwt, which are
-- parameters with their documented behaviour. The randomness of a salt is an argument.
use rpi_nest_api.Prelude.{ℕ, ◌+◌, ◌≤◌, ◌<◌, String, Bool, true, ◌≡◌, Option, some, List}
use rpi_nest_api.Roles.{AccessRole}
use rpi_nest_api.Shell.ChildProcess.{ChildProcess, Promise}
use rpi_nest_api.Shell.PiSerial.{get_default_password}
use rpi_nest_api.Text.Split.{Lacks}

-- `bcrypt.hash(text, rounds)` and `bcrypt.compare(text, hash)`
pub record Bcrypt : Type 0 where
  pub hash : String → (rounds salt : ℕ) → String
  pub compare : String → String → Bool
  pub compare-hash : (text : String) (rounds salt : ℕ) → compare text (hash text rounds salt) ≡ true

-- AccessTokenPayload; the guard allows for a token without roles.
pub record AccessTokenPayload : Type 0 where
  pub sub : String
  pub roles : Option (List AccessRole)
  pub modified : ℕ

-- `JwtService` with the secret and the lifetime of the configuration: `sign` at a time, and
-- `verify`, which throws (`none`) on a token that is not signed by this secret or has expired. A
-- signed token is accepted until it expires, and holds no space.
pub record Jwt : Type 0 where
  pub sign : ℕ → AccessTokenPayload → String
  pub verify : ℕ → String → Option AccessTokenPayload
  pub lifetime : ℕ
  pub verify-sign :
      (issued now : ℕ) (p : AccessTokenPayload)
      → issued ≤ now
      → now < issued + lifetime
      → verify now (sign issued p) ≡ some p
  pub sign_compact : (issued : ℕ) (p : AccessTokenPayload) → Lacks b' ' (sign issued p)

abbrev pub salt_rounds : ℕ
salt_rounds = 10

module _ (bcrypt : Bcrypt) where
  abbrev pub hash_password : ℕ → String → String
  hash_password salt plain_text_password = bcrypt.hash plain_text_password salt_rounds salt

  abbrev pub compare_passwords : String → String → Bool
  compare_passwords plain_text_password hash = bcrypt.compare plain_text_password hash

unfoldable pub get_device_default_password : (String → List String → ChildProcess) → Promise String
unfolding get_default_password
get_device_default_password os = get_default_password os
