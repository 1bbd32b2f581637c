-- ===== src/Validation/Addresses.antt =====
-- The request of src/device/network/network.controller.ts that updates a network device: its body is
-- checked against UpdateNetworkConfigDto before the handler runs.
use rpi_nest_api.Prelude.{ℕ, String, ◌≡◌, Option, none, some}
use rpi_nest_api.Exec.{Exec, lift, ◌>>=◌}
use rpi_nest_api.Json.{Json, undefined, text, object, natural, Fields, get}
use rpi_nest_api.Network.Adapter.{IpSettingsMethod, disabled, auto, dhcp, manual, link_local}
use rpi_nest_api.Network.Settings.{Daemon, Calls}
use rpi_nest_api.Network.Service.{SimpleIpSettings, UpdateNetworkConfigDto, ApiAddress, update}
use rpi_nest_api.Validation.{Checks}
use rpi_nest_api.Validation.Accounts.{optional_text}
use rpi_nest_api.Validation.Dto.{update_network_config_dto}
pub mod Bounds
pub mod Adapted
pub mod Saved

-- IpSettingsMethod
abbrev pub method_text : IpSettingsMethod → String
method_text disabled = "disabled"
method_text auto = "auto"
method_text dhcp = "dhcp"
method_text manual = "manual"
method_text link_local = "link-local"

-- How values stand in a body.
abbrev pub optional_number : Option ℕ → Json
optional_number none = undefined
optional_number (some n) = natural n

abbrev pub optional_method : Option IpSettingsMethod → Json
optional_method none = undefined
optional_method (some m) = text (method_text m)

-- The properties of an object of settings, beside whatever others it has.
abbrev pub SendsSettings : Fields → SimpleIpSettings → Type 0
SendsSettings fs s =
    (get "address" fs ≡ optional_text s.address)
    × (get "prefix" fs ≡ optional_number s.prefix)
    × (get "gateway" fs ≡ optional_text s.gateway)
    × (get "dns" fs ≡ optional_text s.dns)
    × (get "method" fs ≡ optional_method s.method)

abbrev pub SendsPart : Json → Option SimpleIpSettings → Type 0
SendsPart v none = v ≡ undefined
SendsPart v (some s) = (fs : Fields) × (v ≡ object fs) × SendsSettings fs s

abbrev pub SendsConfig : Fields → UpdateNetworkConfigDto → Type 0
SendsConfig fs c = SendsPart (get "ipv4" fs) c.ipv4 × SendsPart (get "ipv6" fs) c.ipv6

module _ {R : Type 0} (checks : Checks) (daemon : Daemon R) where
  unfoldable pub update_network_interface :
      ApiAddress → String → Fields → UpdateNetworkConfigDto → Exec (Calls R) String
  update_network_interface api interface_name fs config = do
    body ← lift (checks.transform update_network_config_dto fs)
    update daemon api interface_name config
