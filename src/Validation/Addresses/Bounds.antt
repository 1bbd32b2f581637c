-- ===== src/Validation/Addresses/Bounds.antt =====
-- What the checks keep of the settings that are saved: prefixes in range, and addresses of the right
-- version.
use rpi_nest_api.Prelude.{
  ℕ, ◌≤◌, String, true, ◌≡◌, refl, sym, ap, subst, ◌∙◌, Option, some, List, [], ◌∷◌, arith, All,
}
use rpi_nest_api.Json.{text, object, natural, whole, pos, Fields, get}
use rpi_nest_api.Network.Adapter.{Variant, AddressVariants, IpVariants}
use rpi_nest_api.Network.Service.{SimpleIpSettings}
use rpi_nest_api.Validation.{
  Schema, Checks, IsValid, tested_at, decorated, is_optional, is_number, is_ip, max, min,
  validate_nested, decorators,
}
use rpi_nest_api.Validation.Dto.{update_network_config_dto}
use rpi_nest_api.Validation.Accounts.{optional_text}
use rpi_nest_api.Validation.Addresses.{SendsSettings, SendsPart, optional_number}

-- The versions of IP, with the least and the greatest prefix that a client may send.
pub record Version : Type 0 where
  pub number : ℕ
  pub least : ℕ
  pub greatest : ℕ

abbrev pub ipv4 : Version
ipv4 = record { number = 4; least = 0; greatest = 32 }

abbrev pub ipv6 : Version
ipv6 = record { number = 6; least = 1; greatest = 128 }

module _ (checks : Checks) (version : Version) where
  abbrev pub IsIp : String → Type 0
  IsIp t = checks.ip_text version.number t ≡ true

  -- The settings that a client sends.
  pub record InBounds (s : SimpleIpSettings) : Type 0 where
    pub address : (t : String) → s.address ≡ some t → IsIp t
    pub prefix : (n : ℕ) → s.prefix ≡ some n → (version.least ≤ n) × (n ≤ version.greatest)
    pub gateway : (t : String) → s.gateway ≡ some t → IsIp t

  abbrev pub AddressInBounds : AddressVariants → Type 0
  AddressInBounds a =
      IsIp a.address.value × (version.least ≤ a.prefix.value) × (a.prefix.value ≤ version.greatest)

  -- The settings that are sent to NetworkManager.
  pub record Bounded {R : Type 0} (v : IpVariants R) : Type 0 where
    pub addresses :
        (w : Variant (List AddressVariants)) → v.address_data ≡ some w → All AddressInBounds w.value
    pub gateway : (w : Variant String) → v.gateway ≡ some w → IsIp w.value

module _ (checks : Checks) where
  -- What the decorators of settings say, for either version.
  pub record IsSettingsDto (version : Version) (schema : Schema) : Type 0 where
    pub address :
        decorators "address" schema ≡ some (decorated (is_optional ∷ is_ip version.number ∷ []))
    pub prefix :
        decorators "prefix" schema
        ≡ some (decorated (is_optional ∷ is_number ∷ max version.greatest ∷ min version.least ∷ []))
    pub gateway :
        decorators "gateway" schema ≡ some (decorated (is_optional ∷ is_ip version.number ∷ []))

  IsIp-InBounds :
      (version : Version) (schema : Schema) (fs : Fields) (name t : String) (o : Option String)
      → IsValid checks.check schema fs
      → decorators name schema ≡ some (decorated (is_optional ∷ is_ip version.number ∷ []))
      → get name fs ≡ optional_text o
      → o ≡ some t
      → IsIp checks version t
  IsIp-InBounds version schema fs name t o valid d sent e =
      let tested =
        tested_at checks.check schema fs name _ (text t) valid.tested d (sent ∙ ap optional_text e)
          refl in
      sym (checks.is_ip_lem version.number t) ∙ tested.1.0 refl

  settings-InBounds :
      (version : Version) (schema : Schema) (fs : Fields) (s : SimpleIpSettings)
      → IsSettingsDto version schema
      → IsValid checks.check schema fs
      → SendsSettings fs s
      → InBounds checks version s
  settings-InBounds version schema fs s dto valid (a, p, g, d, m) = record {
    address = λ t e. IsIp-InBounds version schema fs "address" t s.address valid dto.address a e;
    prefix = λ n e.
        let tested =
          tested_at checks.check schema fs "prefix" _ (natural n) valid.tested dto.prefix
            (p ∙ ap optional_number e) refl in
        (
          ground (arith, checks.min_lem version.least (whole (pos n)), tested.1.1.1.0 refl),
          ground (arith, checks.max_lem version.greatest (whole (pos n)), tested.1.1.0 refl),
        );
    gateway = λ t e. IsIp-InBounds version schema fs "gateway" t s.gateway valid dto.gateway g e;
  }

  pub part-InBounds :
      (version : Version) (schema : Schema) (fs : Fields) (name : String)
      (o : Option SimpleIpSettings) (s : SimpleIpSettings)
      → IsSettingsDto version schema
      → IsValid checks.check update_network_config_dto fs
      → decorators name update_network_config_dto
        ≡ some (decorated (validate_nested schema ∷ is_optional ∷ []))
      → SendsPart (get name fs) o
      → o ≡ some s
      → InBounds checks version s
  part-InBounds version schema fs name o s dto valid d sent e =
      let (gs, same, h) = subst (SendsPart (get name fs)) e sent in
      let tested =
        tested_at checks.check update_network_config_dto fs name _ (object gs) valid.tested d same
          refl in
      settings-InBounds version schema gs s dto (checks.nested_lem schema gs (tested.0 refl)) h
