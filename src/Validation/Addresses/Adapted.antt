-- ===== src/Validation/Addresses/Adapted.antt =====
-- What the adapter of a connection makes of settings in bounds.
use rpi_nest_api.Prelude.{
  ℕ, String, ◌≡◌, ◌≢◌, refl, sym, ap, subst, ◌∙◌, Option, none, some, List, [], ◌∷◌, arith, ◌==◌,
  eq_iff, Bool-cases, inl, inr, All, ◌⊎◌,
}
use rpi_nest_api.Exec.{Void, Exception, Result, ok, err, error}
use rpi_nest_api.Network.Adapter.{
  IpSettingsMethod, auto, NetworkAddress, Variant, AddressVariants, IpVariants, UpdateIpSettings,
  new_adapter, apply_changes,
}
use rpi_nest_api.Network.Adapter.Laws.{
  HasStatic, static, apply_changes_auto, apply_changes-static, apply_changes_refused,
}
use rpi_nest_api.Network.Settings.{adapted, object_of}
use rpi_nest_api.Network.Service.{SimpleIpSettings, to_internal}
use rpi_nest_api.Network.Service.RoundTrip.{IsStatic, to_internal-HasStatic}
use rpi_nest_api.Validation.{Checks}
use rpi_nest_api.Validation.Addresses.Bounds.{Version, InBounds, IsIp, AddressInBounds, Bounded}

method_cases : (m : Option IpSettingsMethod) → (m ≡ some auto) ⊎ (m ≢ some auto)
method_cases none = inr (λ e. cc)
method_cases (some IpSettingsMethod.auto) = inl refl
method_cases (some IpSettingsMethod.disabled) = inr (λ e. cc)
method_cases (some IpSettingsMethod.dhcp) = inr (λ e. cc)
method_cases (some IpSettingsMethod.manual) = inr (λ e. cc)
method_cases (some IpSettingsMethod.link_local) = inr (λ e. cc)

-- The settings are static, or the adapter finds no static settings in them.
IsStatic-cases :
    (s : SimpleIpSettings) (a : Option String) (p : Option ℕ) (g : Option String)
    → s.address ≡ a
    → s.prefix ≡ p
    → s.gateway ≡ g
    → ((x : NetworkAddress) × (gateway : String) × IsStatic s x gateway)
      ⊎ ((x : NetworkAddress) (xs : List NetworkAddress) (gateway : String)
          → HasStatic (to_internal s) x xs gateway
          → ⊥)
unfolding to_internal
IsStatic-cases s none p g ea ep eg = inr (λ x xs gateway h. cc (ea, h.0))
IsStatic-cases s (some a) none g ea ep eg = inr (λ x xs gateway h. cc (ea, ep, h.0))
IsStatic-cases s (some a) (some p) none ea ep eg = inr (λ x xs gateway h. cc (eg, h.1))
IsStatic-cases s (some a) (some p) (some g) ea ep eg = elim (Bool-cases (g == "")) [
  | inl empty ↦ inr (λ x xs gateway h. ground (arith, eg, h.1, h.2, eq_iff g ""))
  | inr filled ↦
      inl (record { address = a; prefix = p }, g, (ea, ep, eg, λ e. ground (arith, eq_iff g "")))
]

some-inj : {A : Type 0} {x y : A} → Path (Option A) (some x) (some y) → x ≡ y
some-inj e = cc

ok-inj : {A : Type 0} {x y : A} → Path (Result A) (ok x) (ok y) → x ≡ y
ok-inj e = cc

err-ne-ok : {A : Type 0} (x : Exception) (y : A) → Path (Result A) (err x) (ok y) → ⊥
err-ne-ok x y e = cc

adapted-apply :
    {R : Type 0} (v : IpVariants R) (changes : UpdateIpSettings) (q : Result Void × IpVariants R)
    → apply_changes (some changes) (new_adapter v) ≡ q
    → adapted v (some changes) ≡ object_of q.0 q.1
adapted-apply {R} v changes q e = ap (λ (r : Result Void × IpVariants R). object_of r.0 r.1) e

module _ (checks : Checks) (version : Version) {R : Type 0} where
  static-Bounded :
      (s : SimpleIpSettings) (v : IpVariants R) (x : NetworkAddress) (gateway : String)
      → InBounds checks version s
      → IsStatic s x gateway
      → Bounded checks version (static (to_internal s) (x ∷ []) gateway v)
  static-Bounded s v x gateway b (a, p, g, n) =
      let range = b.prefix x.prefix p in
      record {
        addresses = λ w e.
            subst
              (λ (u : Variant (List AddressVariants)). All (AddressInBounds checks version) u.value)
              (some-inj e) ((b.address x.address a, range.0, range.1), tt);
        gateway = λ w e.
            subst (λ (u : Variant String). IsIp checks version u.value) (some-inj e)
              (b.gateway gateway g);
      }

  -- What the adapter makes of settings in bounds is in bounds.
  pub adapted-Bounded :
      (s : SimpleIpSettings) (v v' : IpVariants R)
      → InBounds checks version s
      → adapted v (some (to_internal s)) ≡ ok v'
      → Bounded checks version v'
  unfolding to_internal
  adapted-Bounded s v v' b e = elim (method_cases s.method) [
    | inl m ↦
        subst (Bounded checks version)
          (ok-inj
            (sym (adapted-apply v (to_internal s) _ (apply_changes_auto (to_internal s) v m)) ∙ e))
          (record { addresses = λ w p. cc; gateway = λ w p. cc })
    | inr m ↦ elim (IsStatic-cases s s.address s.prefix s.gateway refl refl refl) [
      | inl (x, gateway, h) ↦
          subst (Bounded checks version)
            (ok-inj (
              sym (
                adapted-apply v (to_internal s) _ (
                  apply_changes-static (to_internal s) v x [] gateway m
                    (to_internal-HasStatic s x gateway h)))
              ∙ e))
            (static-Bounded s v x gateway b h)
      | inr dynamic ↦
          let applied = apply_changes (some (to_internal s)) (new_adapter v) in
          let (message, r) = apply_changes_refused (to_internal s) v m dynamic in
          absurd (
            err-ne-ok (error message) v' (
              sym (adapted-apply v (to_internal s) _ refl ∙ ap (λ q. object_of q applied.1) r) ∙ e))
    ]
  ]
