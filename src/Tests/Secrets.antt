-- ===== src/Tests/Secrets.antt =====
-- A library that reports an error unless each variable passes its tests, and what the server then
-- starts with.
use rpi_nest_api.Prelude.{
  Bool, ◌≡◌, refl, arith, none, some, List, [], ◌∷◌, All, Bool-cases, inl, inr, if◌then◌else◌,
}
use rpi_nest_api.Exec.{ok, err, error}
use rpi_nest_api.Config.{
  EnvironmentVariables, new_variables, Environment, ValidationError, Validation,
  create_validate_environment, get_environment_variables,
}
use rpi_nest_api.Config.Cache.{results}
use rpi_nest_api.Config.Secrets.{
  environment_variables, fields_of, ReportsErrors, UsableResult, results-IsUsable,
}
use rpi_nest_api.Tests.Checks.{check, passes, entries, entries-tested, sample_checks}
use rpi_nest_api.Tests.Start.{lookup}

abbrev filled_from : EnvironmentVariables → Environment → EnvironmentVariables
filled_from fresh config = record fresh {
  node_env = lookup "NODE_ENV" config;
  jwt_secret = lookup "JWT_SECRET" config;
  data_dir = lookup "DATA_DIR" config;
}

abbrev errors_of : Bool → List ValidationError
errors_of accepted =
    if accepted
    then []
    else record { constraints = some (("isNotEmpty", "a variable is missing or wrong") ∷ []) } ∷ []

abbrev strict_validation : Validation
strict_validation = record {
  plain_to_instance = filled_from;
  validate_sync = λ v. errors_of (entries environment_variables (fields_of v));
}

strict_validation_reports : ReportsErrors sample_checks strict_validation
unfolding check
strict_validation_reports v e name ds d i =
    elim (Bool-cases (entries environment_variables (fields_of v))) [
      | inl accepted ↦ entries-tested environment_variables (fields_of v) name ds accepted d i
      | inr rejected ↦ absurd (ground (arith, rejected, e))
    ]

abbrev without_secret : Environment
without_secret = ("NODE_ENV", "production") ∷ ("JWT_SECRET", "") ∷ ("DATA_DIR", "/var/lib/api") ∷ []

abbrev with_secret : Environment
with_secret = ("NODE_ENV", "production") ∷ ("JWT_SECRET", "abc") ∷ ("DATA_DIR", "/var/lib/api") ∷ []

results-IsUsable_example :
    All UsableResult (results strict_validation (without_secret ∷ with_secret ∷ [] ∷ []) none)
results-IsUsable_example =
    results-IsUsable sample_checks strict_validation strict_validation_reports
      (without_secret ∷ with_secret ∷ [] ∷ [])

-- The empty secret is refused, the other one is accepted and kept.
secret_accepted :
    results strict_validation (without_secret ∷ with_secret ∷ [] ∷ []) none
    ≡ err (error "Validation for environment variables failed\n-> a variable is missing or wrong")
      ∷ ok (filled_from new_variables with_secret)
      ∷ ok (filled_from new_variables with_secret)
      ∷ []
unfolding results get_environment_variables create_validate_environment check passes entries
secret_accepted = refl
