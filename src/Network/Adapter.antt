-- ===== src/Network/Adapter.antt =====
-- connection-settings.adapter.ts of src/dbus/interfaces/network-manager: the changes to the IP
-- settings of a connection, which NetworkManager holds as an object of variants. A value that may
-- be undefined or null is an `Option (Option A)`: `none` is undefined, `some none` is null.
use rpi_nest_api.Prelude.{
  ℕ, String, Bool, true, false, Option, none, some, List, [], ◌∷◌, map, ◌==◌, if◌then◌else◌,
}
use rpi_nest_api.Exec.{Void, Result, ok, err, Exec, error, pure, throw, modify, lift, ◌>>=◌, ◌>>◌}
pub mod Laws

pub data IpSettingsMethod : Type 0 where
  disabled auto dhcp manual link_local : IpSettingsMethod

pub record NetworkAddress : Type 0 where
  pub address : String
  pub prefix : ℕ

pub record Variant (A : Type 0) : Type 0 where
  pub signature : String
  pub value : A

abbrev pub to_variant : {A : Type 0} → String → A → Variant A
to_variant signature value = record { signature = signature; value = value }

pub record AddressVariants : Type 0 where
  pub address : Variant String
  pub prefix : Variant ℕ

-- `VariantObject<IpSettings>`. The deprecated properties and all others are not looked into.
pub record IpVariants (R : Type 0) : Type 0 where
  pub addresses : Option R
  pub dns : Option R
  pub routes : Option R
  pub address_data : Option (Variant (List AddressVariants))
  pub dns_data : Option (Variant (List String))
  pub dns_search : Option (Variant (List String))
  pub gateway : Option (Variant String)
  pub method : Option (Variant IpSettingsMethod)
  pub others : R

-- `Partial<UpdateIpSettings>`
pub record UpdateIpSettings : Type 0 where
  pub address_data : Option (Option (List NetworkAddress))
  pub gateway : Option (Option String)
  pub method : Option IpSettingsMethod
  pub dns_data : Option (Option (List String))
  pub dns_search : Option (Option (List String))

abbrev pub address_variants : NetworkAddress → AddressVariants
address_variants x = record { address = to_variant "s" x.address; prefix = to_variant "u" x.prefix }

abbrev pub no_static_ip : String
no_static_ip = "Must provide at least one static ip"

abbrev pub no_gateway : String
no_gateway = "Must provide a gateway for static ip"

abbrev pub gateway_without_address : String
gateway_without_address = "gateway cannot be set if there are no addresses configured"

-- The TypeError of `undefined.value`.
abbrev pub value_of_undefined : String
value_of_undefined = "Cannot read properties of undefined (reading 'value')"

-- The address data and the gateway, where they are neither undefined nor null nor empty.
abbrev pub static_addresses : Option (Option (List NetworkAddress)) → Result (List NetworkAddress)
static_addresses (some (some (x ∷ xs))) = ok (x ∷ xs)
static_addresses _ = err (error no_static_ip)

abbrev pub static_gateway : Option (Option String) → Result String
static_gateway (some (some gateway)) = if gateway == "" then err (error no_gateway) else ok gateway
static_gateway _ = err (error no_gateway)

abbrev pub is_auto : Option IpSettingsMethod → Bool
is_auto (some auto) = true
is_auto _ = false

module _ {R : Type 0} where
  -- The constructor removes the deprecated properties.
  unfoldable pub new_adapter : IpVariants R → IpVariants R
  new_adapter v = record v { addresses = none; dns = none; routes = none }

  unfoldable pub set_address_data : Option (List NetworkAddress) → Exec (IpVariants R) Void
  set_address_data none = modify (λ v. record v { address_data = none })
  set_address_data (some address_data) = modify (λ v. record v {
    address_data = some (to_variant "aa{sv}" (map address_variants address_data));
  })

  unfoldable pub set_dns_data : Option (List String) → Exec (IpVariants R) Void
  set_dns_data none = modify (λ v. record v { dns_data = none })
  set_dns_data (some dns_data) =
      modify (λ v. record v { dns_data = some (to_variant "as" dns_data) })

  unfoldable pub set_dns_search : Option (List String) → Exec (IpVariants R) Void
  set_dns_search none = modify (λ v. record v { dns_search = none })
  set_dns_search (some dns_search) =
      modify (λ v. record v { dns_search = some (to_variant "as" dns_search) })

  abbrev pub put_gateway : String → List AddressVariants → Exec (IpVariants R) Void
  put_gateway gateway [] = throw (error gateway_without_address)
  put_gateway gateway (_ ∷ _) = modify (λ v. record v { gateway = some (to_variant "s" gateway) })

  abbrev pub check_gateway :
      String → Option (Variant (List AddressVariants)) → Exec (IpVariants R) Void
  check_gateway gateway none = throw (error value_of_undefined)
  check_gateway gateway (some address_data) = put_gateway gateway address_data.value

  unfoldable pub set_gateway : Option String → Exec (IpVariants R) Void
  set_gateway none v = (ok tt, record v { gateway = none })
  set_gateway (some gateway) v = check_gateway gateway v.address_data v

  unfoldable pub set_method : IpSettingsMethod → Exec (IpVariants R) Void
  set_method method = modify (λ v. record v { method = some (to_variant "s" method) })

  unfoldable pub set_dhcp : Exec (IpVariants R) Void
  unfolding set_address_data set_gateway set_method
  set_dhcp = do set_address_data none; set_gateway none; set_method auto

  unfoldable pub set_manual : UpdateIpSettings → Exec (IpVariants R) Void
  unfolding set_address_data set_gateway set_method
  set_manual changes = do
    address_data ← lift (static_addresses changes.address_data)
    gateway ← lift (static_gateway changes.gateway)
    set_address_data (some address_data)
    set_gateway (some gateway)
    set_method manual

  -- `if (x !== undefined) f(x)`
  abbrev pub if_defined :
      {A : Type 0} → Option A → (A → Exec (IpVariants R) Void) → Exec (IpVariants R) Void
  if_defined none f = pure tt
  if_defined (some x) f = f x

  unfoldable pub apply_defined : UpdateIpSettings → Exec (IpVariants R) Void
  apply_defined changes = do
    if_defined changes.dns_data set_dns_data
    if_defined changes.dns_search set_dns_search
    if is_auto changes.method then set_dhcp else set_manual changes

  -- `applyChanges`, which returns the object that it has changed
  unfoldable pub apply_changes : Option UpdateIpSettings → IpVariants R → Result Void × IpVariants R
  unfolding apply_defined
  apply_changes none = pure tt
  apply_changes (some changes) = apply_defined changes
