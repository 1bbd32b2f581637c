-- ===== src/Tests/Strangers.antt =====
-- Requests without an administrator's token, at the sample stores.
use rpi_nest_api.Prelude.{none, some, List, [], ◌∷◌, All}
use rpi_nest_api.Exec.{ok}
use rpi_nest_api.Json.{text, end, field}
use rpi_nest_api.Auth.UserService.{delete}
use rpi_nest_api.Auth.Guard.{extract_token_from_header}
use rpi_nest_api.Api.{Request, Packages, login, reset_password, change_user, answer_all}
use rpi_nest_api.Api.Confines.{Confined}
use rpi_nest_api.Api.Confinement.{ShowsAdmin, answer_all-Confined}
use rpi_nest_api.Text.{split}
use rpi_nest_api.Tests.Accounts.{world}
use rpi_nest_api.Tests.Checks.{sample_checks}
use rpi_nest_api.Tests.Packages.{plain_bcrypt, list_reflector, list_lodash}
use rpi_nest_api.Tests.Stores.{user_store, settings_store}
use rpi_nest_api.Tests.Token.{spelled_jwt}

abbrev pub packages : Packages
packages = record {
  bcrypt = plain_bcrypt;
  jwt = spelled_jwt;
  reflector = list_reflector;
  lodash = list_lodash;
  checks = sample_checks;
  device_password = ok "serial";
}

abbrev log_in : Request
log_in = record {
  now = 40;
  salt = 0;
  authorization = none;
  body = field "username" (text "eve") (field "password" (text "secret") end);
  action = login "eve" "secret";
}

abbrev remove_eve : Request
remove_eve = record {
  now = 41;
  salt = 0;
  authorization = some "Basic ZXZl";
  body = field "login" (text "eve") end;
  action = change_user (delete "eve");
}

abbrev reset_admin : Request
reset_admin = record {
  now = 42;
  salt = 3;
  authorization = none;
  body = end;
  action = reset_password;
}

abbrev requests : List Request
requests = log_in ∷ remove_eve ∷ reset_admin ∷ []

no_admin : All (λ r. ShowsAdmin spelled_jwt r → ⊥) requests
unfolding extract_token_from_header split
no_admin =
    (λ (p, (token, e, v), a). cc, (λ (p, (token, e, v), a). cc, (λ (p, (token, e, v), a). cc, tt)))

answer_all-Confined_example :
    Confined user_store settings_store world
      (answer_all packages user_store settings_store requests world)
answer_all-Confined_example =
    answer_all-Confined packages user_store settings_store requests world no_admin
