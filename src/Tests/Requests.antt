-- ===== src/Tests/Requests.antt =====
-- Runs of the theorems about requests whose bodies are checked.
use rpi_nest_api.Prelude.{ℕ, ◌≡◌, refl, none, some, List, [], ◌∷◌}
use rpi_nest_api.Exec.{ok, err, bad_request}
use rpi_nest_api.Json.{Json, text, null, array, object, natural, nil, item, Fields, end, field}
use rpi_nest_api.Roles.{AccessRole}
use rpi_nest_api.Auth.UserService.{UserRequest, put, patch}
use rpi_nest_api.Validation.Dto.{user_dto, update_user_dto, update_network_config_dto}
use rpi_nest_api.Validation.Accounts.{receive_all}
use rpi_nest_api.Validation.Accounts.Proper.{AllProper, receive_all-AllProper}
use rpi_nest_api.Validation.Addresses.{update_network_interface}
use rpi_nest_api.Validation.Addresses.Saved.{OnlyBounded, update_network_interface-OnlyBounded}
use rpi_nest_api.Tests.Checks.{check, passes, entries, sample_checks}
use rpi_nest_api.Tests.Packages.{plain_bcrypt}
use rpi_nest_api.Tests.Stores.{user_store}
use rpi_nest_api.Tests.Network.{network_manager, start, api, config}

abbrev roles_body : Json
roles_body = array (item (text "user") (item (text "read-only") nil))

abbrev mary_body : Fields
mary_body =
    field "login" (text "mary") (field "password" (text "secret") (field "roles" roles_body end))

abbrev put_mary : UserRequest
put_mary = put 10 7 (record {
  login = "mary";
  password = "secret";
  roles = AccessRole.user ∷ AccessRole.read_only ∷ [];
  description = none;
})

abbrev patch_body : Fields
patch_body =
    field "login" (text "mary")
      (field "roles" (array (item (text "user") (item (text "user") nil))) end)

abbrev patch_mary : UserRequest
patch_mary = patch 20 (record {
  login = some "mary";
  roles = some (AccessRole.user ∷ AccessRole.user ∷ []);
  description = none;
})

abbrev requests : List (Fields × UserRequest)
requests = (mary_body, put_mary) ∷ (patch_body, patch_mary) ∷ []

receive_all-AllProper_example :
    AllProper user_store (receive_all sample_checks user_store plain_bcrypt requests [])
receive_all-AllProper_example =
    receive_all-AllProper sample_checks user_store plain_bcrypt requests []
      (((refl, refl, refl, refl), ((refl, refl, refl), tt))) (λ k. tt)

-- The first request is accepted; the second names a role twice and is refused.
mary_accepted : sample_checks.transform user_dto mary_body ≡ ok mary_body
unfolding check entries passes
mary_accepted = refl

twice_refused :
    sample_checks.transform (update_user_dto sample_checks) patch_body
    ≡ err (bad_request "Bad Request Exception")
unfolding check entries passes
twice_refused = refl

-- Roles that are null are left aside, and so is a password hash refused that the DTO does not have.
null_roles_accepted :
    sample_checks.transform
      (update_user_dto sample_checks)
      (field "login" (text "mary") (field "roles" null end))
    ≡ ok (field "login" (text "mary") (field "roles" null end))
unfolding check entries passes
null_roles_accepted = refl

other_property_refused :
    sample_checks.transform user_dto (field "passwordHash" (text "secret") mary_body)
    ≡ err (bad_request "Bad Request Exception")
unfolding check entries passes
other_property_refused = refl

abbrev settings_body : ℕ → Fields
settings_body prefix = field "method" (text "manual") (
    field "address" (text "192.168.0.2") (
      field "prefix" (natural prefix)
        (field "gateway" (text "192.168.0.1") (field "dns" (text "192.168.0.1") end))))

abbrev config_body : ℕ → Fields
config_body prefix = field "ipv4" (object (settings_body prefix)) end

update_network_interface-OnlyBounded_example :
    OnlyBounded sample_checks config start
      (update_network_interface sample_checks network_manager api "eth0"
        (config_body 24)
        config
        start).1
update_network_interface-OnlyBounded_example =
    update_network_interface-OnlyBounded sample_checks network_manager api "eth0" (config_body 24)
      config start (((settings_body 24, refl, (refl, refl, refl, refl, refl)), refl))

prefix_accepted :
    sample_checks.transform update_network_config_dto (config_body 32) ≡ ok (config_body 32)
unfolding check entries passes
prefix_accepted = refl

prefix_refused :
    sample_checks.transform update_network_config_dto (config_body 33)
    ≡ err (bad_request "Bad Request Exception")
unfolding check entries passes
prefix_refused = refl
