-- ===== src/Routes.antt =====
-- The controllers of src/authentication, src/device and src/open-api as a table of routes: for each
-- handler its method, its path and the metadata that its decorators and those of its class leave
-- for the guard. A mark that is absent is undefined for the guard.
use rpi_nest_api.Prelude.{String, true, Option, none, some, List, [], ◌∷◌}
use rpi_nest_api.Roles.{AccessRole}
use rpi_nest_api.Auth.Guard.{Context}
pub mod Access

pub data Method : Type 0 where
  get post put patch delete : Method

pub record Endpoint : Type 0 where
  pub method : Method
  pub path : String
  pub context : Context

-- A handler with no mark, with `@AuthorizedRoles` and with `@Public`, in a class with the roles.
abbrev pub unmarked : Option (List AccessRole) → Context
unmarked roles = record {
  handler_public = none;
  class_public = none;
  handler_roles = none;
  class_roles = roles;
}

abbrev pub authorized : List AccessRole → Option (List AccessRole) → Context
authorized allowed roles = record (unmarked roles) { handler_roles = some allowed }

abbrev pub public_route : Option (List AccessRole) → Context
public_route roles = record (unmarked roles) { handler_public = some true }

abbrev pub endpoint_of : Method → String → Context → Endpoint
endpoint_of method path context = record { method = method; path = path; context = context }

-- src/authentication/authentication.controller.ts
pub data AuthenticationRoute : Type 0 where
  login update_password reset_password : AuthenticationRoute

abbrev pub authentication_endpoint : AuthenticationRoute → Endpoint
authentication_endpoint AuthenticationRoute.login =
    endpoint_of Method.post "/authentication/login" (public_route none)
authentication_endpoint AuthenticationRoute.update_password =
    endpoint_of Method.post "/authentication/update-password" (unmarked none)
authentication_endpoint AuthenticationRoute.reset_password =
    endpoint_of Method.post "/authentication/reset-admin-password" (public_route none)

-- src/authentication/user/user.controller.ts
pub data UserRoute : Type 0 where
  get_all update create remove : UserRoute

abbrev pub user_endpoint : UserRoute → Endpoint
user_endpoint UserRoute.get_all = endpoint_of Method.get "/authentication/user" (unmarked none)
user_endpoint UserRoute.update = endpoint_of Method.patch "/authentication/user" (unmarked none)
user_endpoint UserRoute.create = endpoint_of Method.put "/authentication/user" (unmarked none)
user_endpoint UserRoute.remove = endpoint_of Method.delete "/authentication/user" (unmarked none)

-- src/authentication/authorization-test.controller.ts
pub data AuthorizationTestRoute : Type 0 where
  get_public get_admin get_user get_read_only get_read_only_and_user : AuthorizationTestRoute

abbrev pub authorization_test_endpoint : AuthorizationTestRoute → Endpoint
authorization_test_endpoint AuthorizationTestRoute.get_public =
    endpoint_of Method.get "/authorization-test/public" (public_route none)
authorization_test_endpoint AuthorizationTestRoute.get_admin =
    endpoint_of Method.get "/authorization-test/admin" (unmarked none)
authorization_test_endpoint AuthorizationTestRoute.get_user =
    endpoint_of Method.get "/authorization-test/user" (authorized (AccessRole.user ∷ []) none)
authorization_test_endpoint AuthorizationTestRoute.get_read_only =
    endpoint_of Method.get "/authorization-test/read-only"
      (authorized (AccessRole.read_only ∷ []) none)
authorization_test_endpoint AuthorizationTestRoute.get_read_only_and_user =
    endpoint_of Method.get "/authorization-test/read-only-and-user"
      (authorized (AccessRole.read_only ∷ AccessRole.user ∷ []) none)

-- src/authentication/authorization-test.controller.ts
pub data AuthorizationTest2Route : Type 0 where
  get_admin get_read_only : AuthorizationTest2Route

abbrev pub authorization_test2_endpoint : AuthorizationTest2Route → Endpoint
authorization_test2_endpoint AuthorizationTest2Route.get_admin =
    endpoint_of Method.get "/authorization-test-user/admin" (unmarked (some (AccessRole.user ∷ [])))
authorization_test2_endpoint AuthorizationTest2Route.get_read_only =
    endpoint_of Method.get "/authorization-test-user/read-only"
      (authorized (AccessRole.read_only ∷ []) (some (AccessRole.user ∷ [])))

-- src/device/device.controller.ts
pub data DeviceRoute : Type 0 where
  get_meta_data set_meta_data get_installed_packages : DeviceRoute

abbrev pub device_endpoint : DeviceRoute → Endpoint
device_endpoint DeviceRoute.get_meta_data =
    endpoint_of Method.get "/device/metadata"
      (authorized (AccessRole.read_only ∷ []) (some (AccessRole.user ∷ [])))
device_endpoint DeviceRoute.set_meta_data =
    endpoint_of Method.post "/device/metadata" (unmarked (some (AccessRole.user ∷ [])))
device_endpoint DeviceRoute.get_installed_packages =
    endpoint_of Method.get "/device/packages" (unmarked (some (AccessRole.user ∷ [])))

-- src/device/status/device-status.controller.ts
pub data DeviceStatusRoute : Type 0 where
  get_current_status get_metrics : DeviceStatusRoute

abbrev pub device_status_endpoint : DeviceStatusRoute → Endpoint
device_status_endpoint DeviceStatusRoute.get_current_status =
    endpoint_of Method.get "/device/status" (unmarked (some (AccessRole.read_only ∷ [])))
device_status_endpoint DeviceStatusRoute.get_metrics =
    endpoint_of Method.get "/device/metrics" (unmarked (some (AccessRole.read_only ∷ [])))

-- src/device/device-admin/device-admin.controller.ts
pub data DeviceAdminRoute : Type 0 where
  reboot generate_sos_report : DeviceAdminRoute

abbrev pub device_admin_endpoint : DeviceAdminRoute → Endpoint
device_admin_endpoint DeviceAdminRoute.reboot =
    endpoint_of Method.post "/device/admin/reboot" (unmarked none)
device_admin_endpoint DeviceAdminRoute.generate_sos_report =
    endpoint_of Method.post "/device/admin/generate-sos-report" (unmarked none)

-- src/device/device-admin/syslog/syslog.controller.ts
pub data SyslogRoute : Type 0 where
  get_syslog : SyslogRoute

abbrev pub syslog_endpoint : SyslogRoute → Endpoint
syslog_endpoint SyslogRoute.get_syslog =
    endpoint_of Method.get "/device/syslog/:name" (unmarked none)

-- src/device/device-config/device-config.controller.ts
pub data DeviceConfigRoute : Type 0 where
  get_all_configurations get_configuration set_configuration : DeviceConfigRoute

abbrev pub device_config_endpoint : DeviceConfigRoute → Endpoint
device_config_endpoint DeviceConfigRoute.get_all_configurations =
    endpoint_of Method.get "/device/config" (unmarked none)
device_config_endpoint DeviceConfigRoute.get_configuration =
    endpoint_of Method.get "/device/config/:id" (unmarked none)
device_config_endpoint DeviceConfigRoute.set_configuration =
    endpoint_of Method.patch "/device/config/:id" (unmarked none)

-- src/device/network/network.controller.ts
pub data NetworkRoute : Type 0 where
  get_network_interfaces get_active_connection update_network_interface commit_changes :
      NetworkRoute

abbrev pub network_endpoint : NetworkRoute → Endpoint
network_endpoint NetworkRoute.get_network_interfaces =
    endpoint_of Method.get "/device/network/interfaces" (authorized (AccessRole.user ∷ []) none)
network_endpoint NetworkRoute.get_active_connection =
    endpoint_of Method.get "/device/network/interface/:interfaceName"
      (authorized (AccessRole.user ∷ []) none)
network_endpoint NetworkRoute.update_network_interface =
    endpoint_of Method.patch "/device/network/interface/:interfaceName" (unmarked none)
network_endpoint NetworkRoute.commit_changes =
    endpoint_of Method.post "/device/network/commit/:checkpointId" (unmarked none)

-- src/device/date-time/date-time.controller.ts
pub data DateTimeRoute : Type 0 where
  get_date_time_info get_available_timezones update_date_time update_ntp_settings : DateTimeRoute

abbrev pub date_time_endpoint : DateTimeRoute → Endpoint
date_time_endpoint DateTimeRoute.get_date_time_info =
    endpoint_of Method.get "/device/date-time" (authorized (AccessRole.user ∷ []) none)
date_time_endpoint DateTimeRoute.get_available_timezones =
    endpoint_of Method.get "/device/date-time/timezones" (authorized (AccessRole.user ∷ []) none)
date_time_endpoint DateTimeRoute.update_date_time =
    endpoint_of Method.patch "/device/date-time" (unmarked none)
date_time_endpoint DateTimeRoute.update_ntp_settings =
    endpoint_of Method.patch "/device/date-time/ntp" (unmarked none)

-- src/open-api/open-api.controller.ts, marked public on the handler and on the class
pub data OpenApiRoute : Type 0 where
  root : OpenApiRoute

abbrev pub open_api_endpoint : OpenApiRoute → Endpoint
open_api_endpoint OpenApiRoute.root =
    endpoint_of Method.get "/" (record (public_route none) { class_public = some true })

pub data Route : Type 0 where
  authentication : AuthenticationRoute → Route
  user : UserRoute → Route
  authorization_test : AuthorizationTestRoute → Route
  authorization_test2 : AuthorizationTest2Route → Route
  device : DeviceRoute → Route
  device_status : DeviceStatusRoute → Route
  device_admin : DeviceAdminRoute → Route
  syslog : SyslogRoute → Route
  device_config : DeviceConfigRoute → Route
  network : NetworkRoute → Route
  date_time : DateTimeRoute → Route
  open_api : OpenApiRoute → Route

-- All routes of the API.
abbrev pub endpoint : Route → Endpoint
endpoint (authentication r) = authentication_endpoint r
endpoint (user r) = user_endpoint r
endpoint (authorization_test r) = authorization_test_endpoint r
endpoint (authorization_test2 r) = authorization_test2_endpoint r
endpoint (device r) = device_endpoint r
endpoint (device_status r) = device_status_endpoint r
endpoint (device_admin r) = device_admin_endpoint r
endpoint (syslog r) = syslog_endpoint r
endpoint (device_config r) = device_config_endpoint r
endpoint (network r) = network_endpoint r
endpoint (date_time r) = date_time_endpoint r
endpoint (open_api r) = open_api_endpoint r
