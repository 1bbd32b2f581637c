-- ===== src/Tests/Start.antt =====
-- The property of the environment with a library that asks for NODE_ENV alone, and the start.
use rpi_nest_api.Prelude.{String, Option, none, some, List, [], ◌∷◌, ◌≡◌, refl, ◌==◌, if◌then◌else◌}
use rpi_nest_api.Config.{
  EnvironmentVariables, new_variables, Environment, ValidationError, Validation, api_config,
  set_header, init_open_api, bootstrap,
}

abbrev pub lookup : String → Environment → Option String
lookup name [] = none
lookup name ((key, value) ∷ rest) = if key == name then some value else lookup name rest

abbrev sample_errors : Option String → List ValidationError
sample_errors none =
    record { constraints = some (("isDefined", "NODE_ENV must be provided") ∷ []) } ∷ []
sample_errors (some _) = []

abbrev sample_validation : Validation
sample_validation = record {
  plain_to_instance = λ fresh config. record fresh { node_env = lookup "NODE_ENV" config };
  validate_sync = λ variables. sample_errors variables.node_env;
}

abbrev in_production : EnvironmentVariables
in_production = record new_variables { node_env = some "production" }

-- With WRITE_SPEC_ONLY, nothing listens.
abbrev sample_join : Option String → String → String
sample_join none path = path
sample_join (some directory) path = path

specification_only :
    bootstrap
      (λ n. "3000")
      (api_config sample_join "rpi" (record in_production { write_spec_only = some "true" }))
    ≡ set_header "X-Clacks-Overhead" "GNU Terry Pratchett"
      ∷ set_header "Access-Control-Allow-Origin" "*"
      ∷ set_header "Access-Control-Expose-Headers" "Content-Disposition"
      ∷ init_open_api "http://rpi:3000"
      ∷ []
unfolding bootstrap
specification_only = refl
