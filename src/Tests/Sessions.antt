-- ===== src/Tests/Sessions.antt =====
-- Runs of the theorems about the guard.
use rpi_nest_api.Prelude.{
  String, true, false, ◌≡◌, ◌⊎◌, inl, inr, ◌↔◌, refl, none, some, [], ◌∷◌, arith,
}
use rpi_nest_api.Exec.{ok, err, unauthorized}
use rpi_nest_api.Roles.{AccessRole}
use rpi_nest_api.Auth.Crypto.{AccessTokenPayload}
use rpi_nest_api.Auth.Service.{login}
use rpi_nest_api.Auth.Service.Login.{payload_of}
use rpi_nest_api.Auth.Guard.{Context, can_activate}
use rpi_nest_api.Auth.Guard.Decision.{
  IsPublic, HasToken, IsEntitled, can_activate_lem, can_activate_valid,
}
use rpi_nest_api.Auth.Guard.Rights.{MayAccess}
use rpi_nest_api.Auth.Guard.Session.{bearer_header, bearer-HasToken, login-can_activate}
use rpi_nest_api.Routes.{Method, Route, DeviceRoute, AuthenticationRoute, NetworkRoute, endpoint}
use rpi_nest_api.Routes.Access.{
  IsAdmin, IsOpen, IsPublic-routes, read_only_reads, writes_need-IsAdmin,
}
use rpi_nest_api.Tests.Accounts.{eve, world}
use rpi_nest_api.Tests.Token.{spelled_jwt}
use rpi_nest_api.Tests.Packages.{plain_bcrypt, list_reflector, list_lodash}
use rpi_nest_api.Tests.Stores.{user_store, settings_store}

-- A route with the roles 'read-only' on the handler and 'user' on the class.
abbrev metadata_context : Context
metadata_context = record {
  handler_public = none;
  class_public = none;
  handler_roles = some (AccessRole.read_only ∷ []);
  class_roles = some (AccessRole.user ∷ []);
}

login-can_activate_example :
    (token : String) × (login user_store settings_store plain_bcrypt spelled_jwt 30 "eve" "secret"
        world
      ≡ (ok token, world))
    × ((can_activate list_reflector list_lodash spelled_jwt 40 metadata_context
            (some (bearer_header token))
          ≡ ok true)
        ↔ (IsPublic metadata_context ⊎ MayAccess metadata_context (payload_of "eve" eve)))
login-can_activate_example =
    login-can_activate user_store settings_store plain_bcrypt list_reflector list_lodash spelled_jwt
      30 40 world "eve" "secret" eve metadata_context (refl, refl) (omega arith) (omega arith)

can_activate_lem_example :
    (IsEntitled spelled_jwt 40 metadata_context (some "Basic x")
      × (can_activate list_reflector list_lodash spelled_jwt 40 metadata_context (some "Basic x")
          ≡ ok true))
    ⊎ (((IsPublic metadata_context → ⊥)
          × ((p : AccessTokenPayload) × HasToken spelled_jwt 40 (some "Basic x") p
              × (MayAccess metadata_context p → ⊥))
          × (can_activate list_reflector list_lodash spelled_jwt 40 metadata_context
                (some "Basic x")
              ≡ ok false))
        ⊎ ((IsPublic metadata_context → ⊥)
            × ((p : AccessTokenPayload) → HasToken spelled_jwt 40 (some "Basic x") p → ⊥)
            × (can_activate list_reflector list_lodash spelled_jwt 40 metadata_context
                  (some "Basic x")
                ≡ err unauthorized)))
can_activate_lem_example =
    can_activate_lem list_reflector list_lodash spelled_jwt 40 metadata_context (some "Basic x")

IsPublic-routes_run :
    IsPublic (endpoint (Route.authentication AuthenticationRoute.login)).context
    ↔ IsOpen (Route.authentication AuthenticationRoute.login)
IsPublic-routes_run = IsPublic-routes (Route.authentication AuthenticationRoute.login)

abbrev reader : AccessTokenPayload
reader = record { sub = "ann"; roles = some (AccessRole.read_only ∷ []); modified = 3 }

abbrev manager : AccessTokenPayload
manager = record { sub = "max"; roles = some (AccessRole.admin ∷ []); modified = 3 }

reader_no_admin : IsAdmin reader → ⊥
reader_no_admin (inl e) = cc
reader_no_admin (inr e) = cc

reader_may : MayAccess (endpoint (Route.device DeviceRoute.get_meta_data)).context reader
reader_may = inr (inr (AccessRole.read_only, refl, refl))

viewer_reads : (endpoint (Route.device DeviceRoute.get_meta_data)).method ≡ Method.get
viewer_reads =
    read_only_reads (Route.device DeviceRoute.get_meta_data) reader reader_no_admin refl reader_may

manager_may :
    MayAccess (endpoint (Route.network NetworkRoute.update_network_interface)).context manager
manager_may = inr (inl refl)

manager_passes :
    can_activate list_reflector list_lodash spelled_jwt 40
      (endpoint (Route.network NetworkRoute.update_network_interface)).context
      (some (bearer_header (spelled_jwt.sign 30 manager)))
    ≡ ok true
manager_passes =
    (can_activate_valid list_reflector list_lodash spelled_jwt 40 _ _ manager
        (bearer-HasToken spelled_jwt 30 40 manager (omega arith) (omega arith))).1
      (inr manager_may)

writes_need-IsAdmin_example :
    (p : AccessTokenPayload) × HasToken spelled_jwt 40
      (some (bearer_header (spelled_jwt.sign 30 manager)))
      p
    × IsAdmin p
writes_need-IsAdmin_example =
    writes_need-IsAdmin list_reflector list_lodash spelled_jwt
      (Route.network NetworkRoute.update_network_interface) 40
      (some (bearer_header (spelled_jwt.sign 30 manager))) (λ e. cc) (λ e. cc) (λ e. cc) (λ e. cc)
      manager_passes
