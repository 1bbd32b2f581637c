-- ===== src/Network/Adapter/Laws.antt =====
-- What `applyChanges` makes of the settings of a connection.
use rpi_nest_api.Prelude.{
  String, false, ◌≡◌, ◌≢◌, inl, inr, refl, Option, none, some, List, [], ◌∷◌, map, arith, ◌==◌,
  eq_iff, eq-false_of_ne, Bool-cases, ap, if◌then◌else◌,
}
use rpi_nest_api.Exec.{ok, err, error}
use rpi_nest_api.Network.Adapter.{
  auto, manual, NetworkAddress, Variant, to_variant, IpVariants, UpdateIpSettings, address_variants,
  no_static_ip, no_gateway, is_auto, if_defined, set_dns_data, set_dns_search, set_dhcp, set_manual,
  IpSettingsMethod, new_adapter, apply_changes,
}

-- A list of texts after a change that may be undefined (kept) or null (removed).
abbrev pub changed :
    Option (Option (List String)) → Option (Variant (List String)) → Option (Variant (List String))
changed none old = old
changed (some none) old = none
changed (some (some texts)) old = some (to_variant "as" texts)

-- There is an address and a gateway that is not empty.
abbrev pub HasStatic : UpdateIpSettings → NetworkAddress → List NetworkAddress → String → Type 0
HasStatic c x xs gateway =
    (c.address_data ≡ some (some (x ∷ xs))) × (c.gateway ≡ some (some gateway)) × (gateway ≢ "")

not_auto : (m : Option IpSettingsMethod) → m ≢ some auto → is_auto m ≡ false
not_auto m h = ground arith

module _ {R : Type 0} where
  -- The object after a change to automatic settings, and after one to a static address.
  abbrev pub automatic : UpdateIpSettings → IpVariants R → IpVariants R
  automatic c v = record v {
    addresses = none;
    dns = none;
    routes = none;
    address_data = none;
    gateway = none;
    method = some (to_variant "s" auto);
    dns_data = changed c.dns_data v.dns_data;
    dns_search = changed c.dns_search v.dns_search;
  }

  abbrev pub static : UpdateIpSettings → List NetworkAddress → String → IpVariants R → IpVariants R
  static c xs gateway v = record v {
    addresses = none;
    dns = none;
    routes = none;
    address_data = some (to_variant "aa{sv}" (map address_variants xs));
    gateway = some (to_variant "s" gateway);
    method = some (to_variant "s" manual);
    dns_data = changed c.dns_data v.dns_data;
    dns_search = changed c.dns_search v.dns_search;
  }

  -- The object after the changes to the name servers.
  abbrev with_dns : UpdateIpSettings → IpVariants R → IpVariants R
  with_dns c v = record v {
    addresses = none;
    dns = none;
    routes = none;
    dns_data = changed c.dns_data v.dns_data;
    dns_search = changed c.dns_search v.dns_search;
  }

  set_dns_data_lem :
      (d : Option (Option (List String))) (v : IpVariants R)
      → if_defined d set_dns_data v ≡ (ok tt, record v { dns_data = changed d v.dns_data })
  unfolding set_dns_data
  set_dns_data_lem none v = refl
  set_dns_data_lem (some none) v = refl
  set_dns_data_lem (some (some texts)) v = refl

  set_dns_search_lem :
      (d : Option (Option (List String))) (v : IpVariants R)
      → if_defined d set_dns_search v ≡ (ok tt, record v { dns_search = changed d v.dns_search })
  unfolding set_dns_search
  set_dns_search_lem none v = refl
  set_dns_search_lem (some none) v = refl
  set_dns_search_lem (some (some texts)) v = refl

  apply_changes-eq :
      (c : UpdateIpSettings) (v : IpVariants R)
      → apply_changes (some c) (new_adapter v)
        ≡ (if is_auto c.method then set_dhcp else set_manual c) (with_dns c v)
  unfolding apply_changes new_adapter
  apply_changes-eq c v = rw (
    set_dns_data_lem c.dns_data (record v { addresses = none; dns = none; routes = none }),
    set_dns_search_lem c.dns_search (record v {
      addresses = none;
      dns = none;
      routes = none;
      dns_data = changed c.dns_data v.dns_data;
    }),
  )

  -- Automatic settings: the address data and the gateway go.
  pub apply_changes_auto :
      (c : UpdateIpSettings) (v : IpVariants R)
      → c.method ≡ some auto
      → apply_changes (some c) (new_adapter v) ≡ (ok tt, automatic c v)
  unfolding set_dhcp
  apply_changes_auto c v e = rw (apply_changes-eq c v, e)

  -- Any other method with an address and a gateway: both are set, and the method is 'manual'.
  pub apply_changes-static :
      (c : UpdateIpSettings) (v : IpVariants R) (x : NetworkAddress) (xs : List NetworkAddress)
      (gateway : String)
      → c.method ≢ some auto
      → HasStatic c x xs gateway
      → apply_changes (some c) (new_adapter v) ≡ (ok tt, static c (x ∷ xs) gateway v)
  unfolding set_manual
  apply_changes-static c v x xs gateway m (a, g, n) =
      rw (apply_changes-eq c v, not_auto c.method m, a, g, eq-false_of_ne gateway "" n)

  set_manual_refused :
      (c : UpdateIpSettings) (v : IpVariants R) (a : Option (Option (List NetworkAddress)))
      (g : Option (Option String))
      → c.address_data ≡ a
      → c.gateway ≡ g
      → ((x : NetworkAddress) (xs : List NetworkAddress) (gateway : String)
          → HasStatic c x xs gateway
          → ⊥)
      → (message : String) × (set_manual c v ≡ (err (error message), v))
  unfolding set_manual
  set_manual_refused c v none g a e h = (no_static_ip, rw a)
  set_manual_refused c v (some none) g a e h = (no_static_ip, rw a)
  set_manual_refused c v (some (some [])) g a e h = (no_static_ip, rw a)
  set_manual_refused c v (some (some (x ∷ xs))) none a e h = (no_gateway, rw (a, e))
  set_manual_refused c v (some (some (x ∷ xs))) (some none) a e h = (no_gateway, rw (a, e))
  set_manual_refused c v (some (some (x ∷ xs))) (some (some gateway)) a e h =
      elim (Bool-cases (gateway == "")) [
        | inl empty ↦ (no_gateway, rw (a, e, empty))
        | inr filled ↦ absurd (h x xs gateway (a, e, λ p. ground (arith, eq_iff gateway "")))
      ]

  -- Any other method without an address or a gateway is refused.
  pub apply_changes_refused :
      (c : UpdateIpSettings) (v : IpVariants R)
      → c.method ≢ some auto
      → ((x : NetworkAddress) (xs : List NetworkAddress) (gateway : String)
          → HasStatic c x xs gateway
          → ⊥)
      → (message : String) × ((apply_changes (some c) (new_adapter v)).0 ≡ err (error message))
  apply_changes_refused c v m h =
      let (message, refused) = set_manual_refused c (with_dns c v) _ _ refl refl h in
      (message, rw (apply_changes-eq c v, not_auto c.method m) (ap (λ r. r.0) refused))
