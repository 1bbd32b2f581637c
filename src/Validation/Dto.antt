-- ===== src/Validation/Dto.antt =====
-- The DTOs that requests fill, with their decorators: login.dto.ts and user.dto.ts of
-- src/authentication/dto, and the DTOs of src/device.
use rpi_nest_api.Prelude.{String, List, [], ◌∷◌}
use rpi_nest_api.Json.{get, is_true}
use rpi_nest_api.Roles.{admin_user_name}
use rpi_nest_api.Validation.{
  Schema, Decorators, no_property, property, decorated, Checks, is_optional, is_defined,
  is_not_empty, is_string, is_boolean, is_number, is_array, array_not_empty, array_unique,
  is_iso8601, validate_if, max, min, max_length, is_ip, is_in, is_in_each, not_equals,
  validate_nested,
}

abbrev pub login_dto : Schema
login_dto =
    property "username" (decorated (is_not_empty ∷ []))
      (property "password" (decorated (is_not_empty ∷ [])) no_property)

-- It extends LoginDto.
abbrev pub update_password_dto : Schema
update_password_dto = property "newPassword" (decorated (is_not_empty ∷ [])) login_dto

-- ACCESS_ROLES
abbrev pub role_texts : List String
role_texts = "admin" ∷ "user" ∷ "read-only" ∷ []

abbrev pub roles_decorators : Decorators
roles_decorators =
    decorated (is_array ∷ array_not_empty ∷ array_unique ∷ is_in_each role_texts ∷ [])

abbrev pub user_dto : Schema
user_dto =
    property "login" (decorated (not_equals admin_user_name ∷ is_not_empty ∷ is_string ∷ [])) (
      property "password" (decorated (is_not_empty ∷ is_defined ∷ [])) (
        property "roles" roles_decorators
          (property "description" (decorated (is_optional ∷ is_string ∷ [])) no_property)))

module _ (checks : Checks) where
  abbrev pub update_user_dto : Schema
  update_user_dto = checks.partial_type (checks.omit_type ("password" ∷ []) user_dto)

  abbrev pub delete_user_dto : Schema
  delete_user_dto = checks.pick_type ("login" ∷ []) user_dto

abbrev pub device_metadata_dto : Schema
device_metadata_dto = property "name" (decorated (max_length 253 ∷ is_string ∷ is_optional ∷ [])) (
    property "description" (decorated (max_length 1000 ∷ is_string ∷ is_optional ∷ []))
      (property "location" (decorated (max_length 500 ∷ is_string ∷ is_optional ∷ [])) no_property))

abbrev pub update_device_config_dto : Schema
update_device_config_dto =
    property "isEnabled" (decorated (is_boolean ∷ []))
      (property "value" (decorated (is_optional ∷ is_string ∷ [])) no_property)

abbrev pub date_time_settings_dto : Schema
date_time_settings_dto =
    property "timeZone" (decorated (is_string ∷ []))
      (property "date" (decorated (is_iso8601 ∷ [])) no_property)

-- The server is only looked at where synchronization is enabled.
abbrev pub ntp_settings_dto : Schema
ntp_settings_dto =
    property "ntpServer"
      (decorated (is_string ∷ validate_if (λ o. is_true (get "isNtpEnabled" o)) ∷ []))
      (property "isNtpEnabled" (decorated (is_boolean ∷ [])) no_property)

-- SYSLOG_SERVICE_WHITELIST
abbrev pub syslog_service_whitelist : List String
syslog_service_whitelist = "noderedrpinodes-server" ∷ "kernel" ∷ "dpkg" ∷ "ssh" ∷ []

abbrev pub syslog_dto : Schema
syslog_dto =
    property "name" (decorated (is_in syslog_service_whitelist ∷ is_string ∷ [])) no_property

abbrev pub syslog_filter_dto : Schema
syslog_filter_dto =
    property "format" (decorated (is_in ("json" ∷ "short" ∷ []) ∷ is_string ∷ is_optional ∷ []))
      (property "since" (decorated (is_iso8601 ∷ is_optional ∷ [])) no_property)

-- UpdateIpv4SettingsDto
abbrev pub update_ipv4_settings_dto : Schema
update_ipv4_settings_dto = property "address" (decorated (is_optional ∷ is_ip 4 ∷ [])) (
    property "prefix" (decorated (is_optional ∷ is_number ∷ max 32 ∷ min 0 ∷ [])) (
      property "gateway" (decorated (is_optional ∷ is_ip 4 ∷ [])) (
        property "dns" (decorated (is_optional ∷ []))
          (property "method" (decorated (is_in ("auto" ∷ "manual" ∷ []) ∷ [])) no_property))))

-- UpdateIpv6SettingsDto
abbrev pub update_ipv6_settings_dto : Schema
update_ipv6_settings_dto = property "address" (decorated (is_optional ∷ is_ip 6 ∷ [])) (
    property "prefix" (decorated (is_optional ∷ is_number ∷ max 128 ∷ min 1 ∷ [])) (
      property "gateway" (decorated (is_optional ∷ is_ip 6 ∷ [])) (
        property "dns" (decorated (is_optional ∷ [])) (
          property "method" (decorated (is_in ("auto" ∷ "manual" ∷ "dhcp" ∷ []) ∷ []))
            no_property))))

abbrev pub update_network_config_dto : Schema
update_network_config_dto =
    property "ipv4" (decorated (validate_nested update_ipv4_settings_dto ∷ is_optional ∷ [])) (
      property "ipv6" (decorated (validate_nested update_ipv6_settings_dto ∷ is_optional ∷ []))
        no_property)
