-- ===== src/Config.antt =====
-- src/config, src/authentication/jwt.service.factory.ts and src/main.ts: the environment, what is
-- made of it, and the start of the server. The libraries that fill an instance from the environment
-- and check it, and `path.join`, are parameters.
use Prim.Native.String
use rpi_nest_api.Prelude.{
  ℕ, String, Bool, true, false, Option, none, some, List, [], ◌∷◌, ◌++◌, ◌==◌, template,
  if◌then◌else◌,
}
use rpi_nest_api.Exec.{Result, ok, err, error, Exec, pure, lift, ◌>>=◌}
pub mod Cache
pub mod Secrets

-- The variables that have no default may be missing until they are checked.
pub record EnvironmentVariables : Type 0 where
  pub node_env : Option String
  pub jwt_secret : Option String
  pub log_level : String
  pub api_port : ℕ
  pub data_dir : Option String
  pub jwt_expire : String
  pub write_spec_only : Option String

-- A new instance, with the initial values of the fields
abbrev pub new_variables : EnvironmentVariables
new_variables = record {
  node_env = none;
  jwt_secret = none;
  log_level = "log";
  api_port = 3000;
  data_dir = none;
  jwt_expire = "1d";
  write_spec_only = some "false";
}

abbrev pub Environment : Type 0
Environment = List (String × String)

pub record ValidationError : Type 0 where
  pub constraints : Option (List (String × String))

-- class-transformer's `plainToInstance`, which fills a new instance, and class-validator's
-- `validateSync`
pub record Validation : Type 0 where
  pub plain_to_instance : EnvironmentVariables → Environment → EnvironmentVariables
  pub validate_sync : EnvironmentVariables → List ValidationError

abbrev pub with_messages : String → List (String × String) → String
with_messages message [] = message
with_messages message ((_, text) ∷ rest) =
    with_messages (template (message ∷ "\n-> " ∷ text ∷ [])) rest

abbrev pub with_constraints : String → Option (List (String × String)) → String
with_constraints message none = message
with_constraints message (some constraints) = with_messages message constraints

abbrev pub with_errors : String → List ValidationError → String
with_errors message [] = message
with_errors message (e ∷ es) = with_errors (with_constraints message e.constraints) es

abbrev pub accepted_or_throw :
    EnvironmentVariables → List ValidationError → Result EnvironmentVariables
accepted_or_throw variables [] = ok variables
accepted_or_throw variables (e ∷ es) =
    err (error (with_errors "Validation for environment variables failed" (e ∷ es)))

-- `cachedEnv`
abbrev pub Cached : Type 0
Cached = Option EnvironmentVariables

module _ (validation : Validation) where
  unfoldable pub create_validate_environment : Environment → Result EnvironmentVariables
  create_validate_environment config =
      let validated_config = validation.plain_to_instance new_variables config in
      accepted_or_throw validated_config (validation.validate_sync validated_config)

  abbrev pub keep : Result EnvironmentVariables → Exec Cached EnvironmentVariables
  keep (ok variables) cached = (ok variables, some variables)
  keep (err e) cached = (err e, cached)

  unfoldable pub get_environment_variables : Environment → Exec Cached EnvironmentVariables
  get_environment_variables config none = keep (create_validate_environment config) none
  get_environment_variables config (some variables) = (ok variables, some variables)

-- The configurations
pub record ApiConfig : Type 0 where
  pub environment_label : Option String
  pub is_production : Bool
  pub write_spec_only : Bool
  pub log_level : String
  pub port : ℕ
  pub hostname : String
  pub protocol : String
  pub upload_path : String

pub record AuthConfig : Type 0 where
  pub jwt_secret : Option String
  pub access_expiration : String

pub record DatastoreConfig : Type 0 where
  pub root_db_path : String

-- `value === text`
abbrev pub equals : Option String → String → Bool
equals none text = false
equals (some value) text = value == text

-- `join` is `path.join` of the data directory, which may be missing, and a path, and the name of the
-- host is in lower case.
abbrev pub api_config :
    (Option String → String → String) → String → EnvironmentVariables → ApiConfig
api_config join lower_hostname environment = record {
  environment_label = environment.node_env;
  is_production = equals environment.node_env "production";
  write_spec_only = equals environment.write_spec_only "true";
  log_level = environment.log_level;
  port = environment.api_port;
  hostname = lower_hostname;
  protocol = "http";
  upload_path = join environment.data_dir "/upload";
}

abbrev pub auth_config : EnvironmentVariables → AuthConfig
auth_config environment = record {
  jwt_secret = environment.jwt_secret;
  access_expiration = environment.jwt_expire;
}

abbrev pub datastore_config :
    (Option String → String → String) → EnvironmentVariables → DatastoreConfig
datastore_config join environment = record { root_db_path = join environment.data_dir "/datastore" }

-- The path that LmbdStorageProvider opens
abbrev pub db_file_path : DatastoreConfig → String
db_file_path config = template (config.root_db_path ∷ "/rpi-nest-api.db" ∷ [])

pub record JwtModuleOptions : Type 0 where
  pub secret : Option String
  pub expires_in : String

-- `createJwtOptions`
abbrev pub create_jwt_options : AuthConfig → JwtModuleOptions
create_jwt_options config = record {
  secret = config.jwt_secret;
  expires_in = config.access_expiration;
}

-- What `bootstrap` does with the application, in order
pub data StartAction : Type 0 where
  set_header : (name value : String) → StartAction
  init_open_api : (server_url : String) → StartAction
  listen : ℕ → StartAction

-- `addHttpMiddleware`
abbrev pub add_http_middleware : List StartAction
add_http_middleware =
    set_header "X-Clacks-Overhead" "GNU Terry Pratchett"
    ∷ set_header "Access-Control-Allow-Origin" "*"
    ∷ set_header "Access-Control-Expose-Headers" "Content-Disposition"
    ∷ []

-- The address of the server; `show` prints a number.
abbrev pub local_server_url : (ℕ → String) → ApiConfig → String
local_server_url show config =
    template (config.protocol ∷ "://" ∷ config.hostname ∷ ":" ∷ show config.port ∷ [])

unfoldable pub bootstrap : (ℕ → String) → ApiConfig → List StartAction
bootstrap show config =
    let prepared = add_http_middleware ++ (init_open_api (local_server_url show config) ∷ []) in
    if config.write_spec_only then prepared else prepared ++ (listen config.port ∷ [])
