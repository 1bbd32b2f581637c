-- ===== src/Network/Service.antt =====
-- network.service.ts and update-network-config.dto.ts of src/device/network: the settings of a
-- network device in the simple form that clients read and write. The address that a client reaches
-- the API at (protocol, host name, port) is a parameter, as the text of the configuration.
use rpi_nest_api.Prelude.{ℕ, String, Option, none, some, List, [], ◌∷◌, map, template}
use rpi_nest_api.Exec.{Void, Result, ok, err, Exec, error, bad_request, pure, lift, ◌>>=◌}
use rpi_nest_api.Network.Adapter.{
  IpSettingsMethod, NetworkAddress, AddressVariants, Variant, IpVariants, UpdateIpSettings,
}
use rpi_nest_api.Network.Settings.{
  Daemon, Calls, ConnectionVariants, UpdatableSettings, commit_changes,
  get_active_connection_of_device, update_active_connection_of_device,
}
pub mod RoundTrip
pub mod Confirmation

-- `SimpleIpv4Settings` and `SimpleIpv6Settings`
pub record SimpleIpSettings : Type 0 where
  pub method : Option IpSettingsMethod
  pub gateway : Option String
  pub address : Option String
  pub prefix : Option ℕ
  pub dns : Option String

-- `UpdateNetworkConfigDto`
pub record UpdateNetworkConfigDto : Type 0 where
  pub ipv4 : Option SimpleIpSettings
  pub ipv6 : Option SimpleIpSettings

-- The settings that `unwrapVariantObject` leaves, as far as the service reads them.
pub record IpSettings : Type 0 where
  pub address_data : Option (List NetworkAddress)
  pub gateway : Option String
  pub method : Option IpSettingsMethod
  pub dns_data : Option (List String)

pub record ApiAddress : Type 0 where
  pub protocol : String
  pub hostname : String
  pub port : String

-- The TypeError of `undefined[0]`.
abbrev pub first_of_undefined : String
first_of_undefined = "Cannot read properties of undefined (reading '0')"

abbrev value_of : {A : Type 0} → Variant A → A
value_of v = v.value

abbrev map_option : {A B : Type 0} → (A → B) → Option A → Option B
map_option f none = none
map_option f (some a) = some (f a)

abbrev unwrapped_address : AddressVariants → NetworkAddress
unwrapped_address a = record { address = a.address.value; prefix = a.prefix.value }

abbrev first : {A : Type 0} → List A → Option A
first [] = none
first (x ∷ _) = some x

-- `xs?.[0]`
abbrev first_if_defined : {A : Type 0} → Option (List A) → Option A
first_if_defined none = none
first_if_defined (some xs) = first xs

abbrev address_of : Option NetworkAddress → Option String
address_of = map_option (λ a. a.address)

abbrev prefix_of : Option NetworkAddress → Option ℕ
prefix_of = map_option (λ a. a.prefix)

abbrev simple_with : IpSettings → Option (List NetworkAddress) → Result SimpleIpSettings
simple_with ip none = err (error first_of_undefined)
simple_with ip (some address_data) = ok (record {
  method = ip.method;
  gateway = ip.gateway;
  address = address_of (first address_data);
  prefix = prefix_of (first address_data);
  dns = first_if_defined ip.dns_data;
})

unfoldable pub to_simple : IpSettings → Result SimpleIpSettings
to_simple ip = simple_with ip ip.address_data

-- `address !== undefined && prefix !== undefined`
abbrev addresses_of : Option String → Option ℕ → List NetworkAddress
addresses_of (some address) (some prefix) = record { address = address; prefix = prefix } ∷ []
addresses_of _ _ = []

abbrev list_of : {A : Type 0} → Option A → List A
list_of none = []
list_of (some x) = x ∷ []

unfoldable pub to_internal : SimpleIpSettings → UpdateIpSettings
to_internal ip = record {
  address_data = some (some (addresses_of ip.address ip.prefix));
  gateway = map_option some ip.gateway;
  method = ip.method;
  dns_data = some (some (list_of ip.dns));
  dns_search = none;
}

-- `toInternal` of what may be undefined
abbrev pub internal : Option SimpleIpSettings → Option UpdateIpSettings
internal = map_option to_internal

abbrev pub updatable : UpdateNetworkConfigDto → UpdatableSettings
updatable config = record { ipv4 = internal config.ipv4; ipv6 = internal config.ipv6 }

abbrev pub local_server_url : ApiAddress → String
local_server_url c = template (c.protocol ∷ "://" ∷ c.hostname ∷ ":" ∷ c.port ∷ [])

abbrev pub confirmation_url : ApiAddress → String → String
confirmation_url c checkpoint_id =
    template (local_server_url c ∷ "/device/network/commit/" ∷ checkpoint_id ∷ [])

-- `catch (error) { throw new BadRequestException('Invalid checkpoint') }`
abbrev pub or_bad_request : Result Void → Result Void
or_bad_request (ok _) = ok tt
or_bad_request (err _) = err (bad_request "Invalid checkpoint")

module _ {R : Type 0} where
  unfoldable pub unwrapped : IpVariants R → IpSettings
  unwrapped v = record {
    address_data = map_option (λ a. map unwrapped_address a.value) v.address_data;
    gateway = map_option value_of v.gateway;
    method = map_option value_of v.method;
    dns_data = map_option value_of v.dns_data;
  }

  unfoldable pub get_active_connection :
      Daemon R → String → Exec (Calls R) (SimpleIpSettings × SimpleIpSettings)
  get_active_connection daemon interface_name = do
    settings ← get_active_connection_of_device daemon interface_name
    ipv4 ← lift (to_simple (unwrapped settings.ipv4))
    ipv6 ← lift (to_simple (unwrapped settings.ipv6))
    pure (ipv4, ipv6)

  unfoldable pub update :
      Daemon R → ApiAddress → String → UpdateNetworkConfigDto → Exec (Calls R) String
  update daemon api interface_name config = do
    checkpoint_id ← update_active_connection_of_device daemon interface_name (updatable config)
    pure (confirmation_url api checkpoint_id)

  unfoldable pub commit : Daemon R → String → Exec (Calls R) Void
  commit daemon checkpoint_id s =
      let (r, s') = commit_changes daemon checkpoint_id s in (or_bad_request r, s')
