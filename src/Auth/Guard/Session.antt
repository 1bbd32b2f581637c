-- ===== src/Auth/Guard/Session.antt =====
-- From a login to a request: the token that `login` gives out, sent as `Bearer`, opens exactly the
-- routes that the user may access.
use Prim.Native.String
use text.Mathlib.TextLemmas.{cons-append, nil-append, append-nil, append_assoc}
use rpi_nest_api.Prelude.{
  ℕ, ◌+◌, ◌≤◌, ◌<◌, String, true, ◌≡◌, ◌⊎◌, ◌↔◌, refl, ap, ◌∙◌, some, [], ◌∷◌, template,
}
use rpi_nest_api.Exec.{ok}
use rpi_nest_api.Text.Split.{Lacks, split-append, split_whole}
use rpi_nest_api.Users.{UserStore, UserData}
use rpi_nest_api.Settings.{SettingsStore}
use rpi_nest_api.Auth.Crypto.{Jwt, Bcrypt, AccessTokenPayload}
use rpi_nest_api.Auth.Service.{World, login}
use rpi_nest_api.Auth.Service.Login.{Authenticates, payload_of, login_authenticated}
use rpi_nest_api.Auth.Guard.{Context, Reflector, Lodash, can_activate, extract_token_from_header}
use rpi_nest_api.Auth.Guard.Decision.{can_activate_valid, IsPublic, HasToken}
use rpi_nest_api.Auth.Guard.Rights.{MayAccess}

-- The header that a client sends with a token.
abbrev pub bearer_header : String → String
bearer_header token = template ("Bearer " ∷ token ∷ [])

bearer_header_parts :
    (token : String) → bearer_header token ≡ String.◌++◌ "Bearer" (String.◌∷◌ " " token)
bearer_header_parts token =
    ap (λ t. String.◌++◌ "Bearer " t) (append-nil token)
    ∙ append_assoc "Bearer" " " token
    ∙ ap (λ t. String.◌++◌ "Bearer" t)
        (cons-append " " "" token ∙ ap (λ t. String.◌∷◌ " " t) (nil-append token))

bearer-Lacks_space : Lacks b' ' "Bearer"
bearer-Lacks_space = (refl, (refl, (refl, (refl, (refl, (refl, tt))))))

extract_token_lem :
    (token : String)
    → Lacks b' ' token
    → extract_token_from_header (some (bearer_header token)) ≡ some token
unfolding extract_token_from_header
extract_token_lem token h = rw (
  bearer_header_parts token,
  split-append b' ' "Bearer" " " token bearer-Lacks_space refl,
  split_whole b' ' token h,
)

-- A signed token in the header is a valid token until it expires.
pub bearer-HasToken :
    (jwt : Jwt) (issued now : ℕ) (p : AccessTokenPayload)
    → issued ≤ now
    → now < issued + jwt.lifetime
    → HasToken jwt now (some (bearer_header (jwt.sign issued p))) p
bearer-HasToken jwt issued now p le lt = (
  jwt.sign issued p,
  extract_token_lem (jwt.sign issued p) (jwt.sign_compact issued p),
  jwt.verify-sign issued now p le lt,
)

module _ {U T : Type 0} (db : UserStore U) (settings : SettingsStore T) (bcrypt : Bcrypt) where
  -- A user who logs in with the right password gets a token that, until it expires, opens exactly
  -- the public routes and those that its roles may access.
  pub login-can_activate :
      (reflector : Reflector) (lodash : Lodash) (jwt : Jwt) (issued now : ℕ) (w : World U T)
      (user_login password : String) (u : UserData) (c : Context)
      → Authenticates db settings bcrypt w user_login password u
      → issued ≤ now
      → now < issued + jwt.lifetime
      → (token : String) × (login db settings bcrypt jwt issued user_login password w
          ≡ (ok token, w))
        × ((can_activate reflector lodash jwt now c (some (bearer_header token)) ≡ ok true)
            ↔ (IsPublic c ⊎ MayAccess c (payload_of user_login u)))
  login-can_activate reflector lodash jwt issued now w user_login password u c a le lt = (
    jwt.sign issued (payload_of user_login u),
    login_authenticated db settings bcrypt jwt issued w user_login password u a,
    can_activate_valid reflector lodash jwt now c _ (payload_of user_login u)
        (bearer-HasToken jwt issued now (payload_of user_login u) le lt),
  )
