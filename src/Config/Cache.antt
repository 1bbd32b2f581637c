-- ===== src/Config/Cache.antt =====
-- Which environment the configurations see.
use rpi_nest_api.Prelude.{◌≡◌, List, [], ◌∷◌}
use rpi_nest_api.Exec.{Exception, Result, err}
use rpi_nest_api.Config.{
  EnvironmentVariables, Environment, Validation, Cached, create_validate_environment,
  get_environment_variables,
}

module _ (validation : Validation) where
  -- The results of some calls, one after the other
  unfoldable pub results : List Environment → Cached → List (Result EnvironmentVariables)
  results [] cached = []
  results (config ∷ configs) cached =
      let (result, next) = get_environment_variables validation config cached in
      result ∷ results configs next

  abbrev pub IsRefused : Environment → Type 0
  IsRefused config = (e : Exception) × (create_validate_environment validation config ≡ err e)
