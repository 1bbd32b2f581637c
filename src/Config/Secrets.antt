-- ===== src/Config/Secrets.antt =====
-- What src/config/environment.ts asks of the variables, and what the server can rely on.
use rpi_nest_api.Prelude.{
  String, true, ◌≡◌, ◌≢◌, refl, sym, ◌∙◌, Option, none, some, List, [], ◌∷◌, All, arith, eq_iff,
  includes_text,
}
use rpi_nest_api.Exec.{Result, ok, err}
use rpi_nest_api.Json.{undefined, text, natural, Fields, end, field}
use rpi_nest_api.Validation.{
  Schema, no_property, property, decorated, Checks, IsTested, is_optional, is_defined, is_not_empty,
  is_string, is_number, is_enum,
}
use rpi_nest_api.Validation.Accounts.{optional_text}
use rpi_nest_api.Config.{
  EnvironmentVariables, Environment, ValidationError, Validation, new_variables, Cached,
  create_validate_environment, get_environment_variables, accepted_or_throw, keep,
}
use rpi_nest_api.Config.Cache.{results}

abbrev pub environments : List String
environments = "development" ∷ "production" ∷ "testing" ∷ []

abbrev pub log_levels : List String
log_levels = "log" ∷ "error" ∷ "warn" ∷ "debug" ∷ "verbose" ∷ []

-- The decorators of EnvironmentVariables
abbrev pub environment_variables : Schema
environment_variables = property "NODE_ENV" (decorated (is_enum environments ∷ is_defined ∷ [])) (
    property "JWT_SECRET" (decorated (is_defined ∷ is_not_empty ∷ [])) (
      property "LOG_LEVEL" (decorated (is_enum log_levels ∷ is_optional ∷ [])) (
        property "API_PORT" (decorated (is_number ∷ is_optional ∷ [])) (
          property "DATA_DIR" (decorated (is_string ∷ is_not_empty ∷ [])) (
            property "JWT_EXPIRE" (decorated (is_string ∷ is_optional ∷ []))
              (property "WRITE_SPEC_ONLY" (decorated (is_optional ∷ [])) no_property))))))

-- The instance that is checked.
abbrev pub fields_of : EnvironmentVariables → Fields
fields_of v = field "NODE_ENV" (optional_text v.node_env) (
    field "JWT_SECRET" (optional_text v.jwt_secret) (
      field "LOG_LEVEL" (text v.log_level) (
        field "API_PORT" (natural v.api_port) (
          field "DATA_DIR" (optional_text v.data_dir) (
            field "JWT_EXPIRE" (text v.jwt_expire)
              (field "WRITE_SPEC_ONLY" (optional_text v.write_spec_only) end))))))

abbrev pub IsFilled : Option String → Type 0
IsFilled o = (t : String) × (o ≡ some t) × (t ≢ "")

-- Variables that the server can start with.
pub record IsUsable (v : EnvironmentVariables) : Type 0 where
  pub node_env : (t : String) × (v.node_env ≡ some t) × (includes_text environments t ≡ true)
  pub jwt_secret : IsFilled v.jwt_secret
  pub log_level : includes_text log_levels v.log_level ≡ true
  pub data_dir : IsFilled v.data_dir

abbrev pub UsableResult : Result EnvironmentVariables → Type 0
UsableResult (ok v) = IsUsable v
UsableResult (err e) = Unit

-- `validateSync` reports an error unless each property passes its tests.
abbrev pub ReportsErrors : Checks → Validation → Type 0
ReportsErrors checks validation =
    (v : EnvironmentVariables)
    → validation.validate_sync v ≡ []
    → IsTested checks.check environment_variables (fields_of v)

module _ (checks : Checks) where
  filled : (o : Option String) → checks.check is_not_empty (optional_text o) ≡ true → IsFilled o
  filled none h = absurd (ground (arith, checks.not_empty_undefined, h))
  filled (some t) h = (t, refl, λ e. ground (arith, checks.not_empty_lem t, eq_iff t "", h))

  known_environment :
      (o : Option String)
      → checks.check (is_enum environments) (optional_text o) ≡ true
      → checks.check is_defined (optional_text o) ≡ true
      → (t : String) × (o ≡ some t) × (includes_text environments t ≡ true)
  known_environment none e d = absurd (ground (arith, checks.is_defined_lem undefined, d))
  known_environment (some t) e d = (t, refl, sym (checks.is_enum_lem environments t) ∙ e)

  tested-IsUsable :
      (v : EnvironmentVariables)
      → IsTested checks.check environment_variables (fields_of v)
      → IsUsable v
  tested-IsUsable v tested =
      let node_env = tested "NODE_ENV" _ refl refl in
      let secret = tested "JWT_SECRET" _ refl refl in
      let level = tested "LOG_LEVEL" _ refl refl in
      let dir = tested "DATA_DIR" _ refl refl in
      record {
        node_env = known_environment v.node_env (node_env.0 refl) (node_env.1.0 refl);
        jwt_secret = filled v.jwt_secret (secret.1.0 refl);
        log_level = sym (checks.is_enum_lem log_levels v.log_level) ∙ level.0 refl;
        data_dir = filled v.data_dir (dir.1.0 refl);
      }

module _ (checks : Checks) (validation : Validation)
    (reports : ReportsErrors checks validation) where
  accepted-IsUsable :
      (v : EnvironmentVariables) (errors : List ValidationError)
      → validation.validate_sync v ≡ errors
      → UsableResult (accepted_or_throw v errors)
  accepted-IsUsable v [] e = tested-IsUsable checks v (reports v e)
  accepted-IsUsable v (x ∷ xs) e = tt

  created-IsUsable :
      (config : Environment) → UsableResult (create_validate_environment validation config)
  unfolding create_validate_environment
  created-IsUsable config =
      accepted-IsUsable (validation.plain_to_instance new_variables config) _ refl

  abbrev UsableCache : Cached → Type 0
  UsableCache none = Unit
  UsableCache (some v) = IsUsable v

  called-IsUsable :
      (config : Environment) (cached : Cached)
      → UsableCache cached
      → UsableResult (get_environment_variables validation config cached).0
        × UsableCache (get_environment_variables validation config cached).1
  unfolding get_environment_variables
  called-IsUsable config (some v) h = (h, h)
  called-IsUsable config none h =
      kept (create_validate_environment validation config) (created-IsUsable config)
    where
      kept :
          (r : Result EnvironmentVariables)
          → UsableResult r
          → UsableResult (keep validation r none).0 × UsableCache (keep validation r none).1
      kept (ok v) u = (u, u)
      kept (err e) u = (tt, tt)

  cached_results-IsUsable :
      (configs : List Environment) (cached : Cached)
      → UsableCache cached
      → All UsableResult (results validation configs cached)
  unfolding results
  cached_results-IsUsable [] cached h = tt
  cached_results-IsUsable (config ∷ configs) cached h =
      let (u, c) = called-IsUsable config cached h in
      (u, cached_results-IsUsable configs (get_environment_variables validation config cached).1 c)

  -- Whatever environments the calls for the variables are given: each call throws, or the server gets
  -- one of the three environments, a secret for its tokens and a directory for its data that are not
  -- empty, and a known level of logging.
  pub results-IsUsable :
      (configs : List Environment) → All UsableResult (results validation configs none)
  results-IsUsable configs = cached_results-IsUsable configs none tt
