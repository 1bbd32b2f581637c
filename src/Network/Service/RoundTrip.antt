-- ===== src/Network/Service/RoundTrip.antt =====
-- A client reads the static settings that it has written.
use rpi_nest_api.Prelude.{String, ◌≡◌, ◌≢◌, refl, sym, ap, ◌∙◌, Option, none, some, [], ◌∷◌}
use rpi_nest_api.Exec.{ok}
use rpi_nest_api.Network.Adapter.{manual, NetworkAddress, IpVariants, new_adapter, apply_changes}
use rpi_nest_api.Network.Adapter.Laws.{HasStatic, static, apply_changes-static}
use rpi_nest_api.Network.Service.{SimpleIpSettings, to_simple, to_internal, unwrapped}

-- The settings name an address with its prefix and a gateway that is not empty.
abbrev pub IsStatic : SimpleIpSettings → NetworkAddress → String → Type 0
IsStatic s a gateway =
    (s.address ≡ some a.address)
    × (s.prefix ≡ some a.prefix)
    × (s.gateway ≡ some gateway)
    × (gateway ≢ "")

pub to_internal-HasStatic :
    (s : SimpleIpSettings) (a : NetworkAddress) (gateway : String)
    → IsStatic s a gateway
    → HasStatic (to_internal s) a [] gateway
unfolding to_internal
to_internal-HasStatic s a gateway (x, p, g, n) = (rw (x, p), rw g, n)

module _ {R : Type 0} where
  read_back :
      (s : SimpleIpSettings) (v : IpVariants R) (a : NetworkAddress) (gateway : String)
      (dns : Option String)
      → s.dns ≡ dns
      → IsStatic s a gateway
      → to_simple (unwrapped (static (to_internal s) (a ∷ []) gateway v))
        ≡ ok (record s { method = some manual })
  unfolding to_simple unwrapped to_internal
  read_back s v a gateway none d (x, p, g, n) = rw (d, x, p, g)
  read_back s v a gateway (some _) d (x, p, g, n) = rw (d, x, p, g)

  -- Settings of the method 'manual' with an address, a prefix and a gateway that is not empty are
  -- accepted for a connection in any state, and are read back as written, the name server included.
  pub to_internal-to_simple :
      (s : SimpleIpSettings) (v : IpVariants R) (a : NetworkAddress) (gateway : String)
      → s.method ≡ some manual
      → IsStatic s a gateway
      → (v' : IpVariants R) × (apply_changes (some (to_internal s)) (new_adapter v) ≡ (ok tt, v'))
        × (to_simple (unwrapped v') ≡ ok s)
  unfolding to_internal
  to_internal-to_simple s v a gateway m h = (
    static (to_internal s) (a ∷ []) gateway v,
    apply_changes-static (to_internal s) v a [] gateway (λ e. cc (m, e))
        (to_internal-HasStatic s a gateway h),
    read_back s v a gateway s.dns refl h ∙ ap (λ o. ok (record s { method = o })) (sym m),
  )
