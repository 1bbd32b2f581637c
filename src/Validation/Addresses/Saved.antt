-- ===== src/Validation/Addresses/Saved.antt =====
-- What a request to update a network device sends to NetworkManager.
use rpi_nest_api.Prelude.{String, ◌≡◌, refl, sym, some, List, [], ◌∷◌, ◌++◌, inl, inr, All, subst}
use mathlib.Core.List.{append_assoc, append-nil}
use rpi_nest_api.Exec.{Result, ok, Result-cases}
use rpi_nest_api.Json.{Fields}
use rpi_nest_api.Network.Settings.{
  adapted, Daemon, Calls, DaemonCall, ConnectionVariants, checkpoint_create, checkpoint_destroy,
  update_connection, reapply, Prepared, prepare, update_active_connection_of_device,
}
use rpi_nest_api.Network.Settings.Order.{
  Updated, refused, sent_in_order, Saved, no_checkpoint, not_saved, saved, update-Updated,
}
use rpi_nest_api.Network.Settings.Preparation.{prepare-IsAdapted}
use rpi_nest_api.Network.Service.{
  UpdateNetworkConfigDto, SimpleIpSettings, ApiAddress, internal, update, updatable,
}
use rpi_nest_api.Validation.{Checks, IsValid}
use rpi_nest_api.Validation.Dto.{
  update_ipv4_settings_dto, update_ipv6_settings_dto, update_network_config_dto,
}
use rpi_nest_api.Validation.Addresses.{SendsConfig, update_network_interface}
use rpi_nest_api.Validation.Addresses.Bounds.{ipv4, ipv6, Bounded, part-InBounds}
use rpi_nest_api.Validation.Addresses.Adapted.{adapted-Bounded}

module _ (checks : Checks) {R : Type 0} (config : UpdateNetworkConfigDto) where
  -- The parts of the settings that a request changes are in bounds.
  abbrev pub BoundedSettings : ConnectionVariants R → Type 0
  BoundedSettings v =
      ((s : SimpleIpSettings) → config.ipv4 ≡ some s → Bounded checks ipv4 v.ipv4)
      × ((s : SimpleIpSettings) → config.ipv6 ≡ some s → Bounded checks ipv6 v.ipv6)

  abbrev pub BoundedCall : DaemonCall R → Type 0
  BoundedCall (checkpoint_create devices timeout flags) = Unit
  BoundedCall (checkpoint_destroy path) = Unit
  BoundedCall (update_connection path v) = BoundedSettings v
  BoundedCall (reapply device v version flags) = BoundedSettings v

  -- From one state of the calls to another, only such calls were made or put off.
  pub record OnlyBounded (s t : Calls R) : Type 0 where
    pub sent : List (DaemonCall R)
    pub later : List (DaemonCall R)
    pub made : t.made ≡ s.made ++ sent
    pub put_off : t.put_off ≡ s.put_off ++ later
    pub sent_bounded : All BoundedCall sent
    pub later_bounded : All BoundedCall later

  nothing-OnlyBounded : (s : Calls R) → OnlyBounded s s
  nothing-OnlyBounded s = record {
    sent = [];
    later = [];
    made = sym (append-nil s.made);
    put_off = sym (append-nil s.put_off);
    sent_bounded = tt;
    later_bounded = tt;
  }

  Saved-OnlyBounded :
      (daemon : Daemon R) (s t : Calls R) (p : Prepared R) (r : Result String)
      → BoundedSettings p.settings
      → Saved daemon s p r t
      → OnlyBounded s t
  Saved-OnlyBounded daemon s _ p _ b (no_checkpoint e why) = record {
    sent = checkpoint_create (p.device_path ∷ []) 30 0 ∷ [];
    later = [];
    made = refl;
    put_off = sym (append-nil s.put_off);
    sent_bounded = (tt, tt);
    later_bounded = tt;
  }
  Saved-OnlyBounded daemon s _ p _ b (not_saved path id x c why) = record {
    sent =
        checkpoint_create (p.device_path ∷ []) 30 0
        ∷ update_connection p.connection p.settings
        ∷ [];
    later = [];
    made = append_assoc s.made _ _;
    put_off = sym (append-nil s.put_off);
    sent_bounded = (tt, (b, tt));
    later_bounded = tt;
  }
  Saved-OnlyBounded daemon s _ p _ b (saved path id version c u v) = record {
    sent =
        checkpoint_create (p.device_path ∷ []) 30 0
        ∷ update_connection p.connection p.settings
        ∷ [];
    later = reapply p.device_path p.settings version 0 ∷ [];
    made = append_assoc s.made _ _;
    put_off = refl;
    sent_bounded = (tt, (b, tt));
    later_bounded = (b, tt);
  }

module _ (checks : Checks) {R : Type 0} (daemon : Daemon R) where
  prepared-Bounded :
      (name : String) (fs : Fields) (config : UpdateNetworkConfigDto) (s : Calls R) (p : Prepared R)
      → IsValid checks.check update_network_config_dto fs
      → SendsConfig fs config
      → (prepare daemon name (updatable config) s).0 ≡ ok p
      → BoundedSettings checks config p.settings
  prepared-Bounded name fs config s p valid (i4, i6) e =
      let (v4, v6, a4, a6) = (prepare-IsAdapted daemon name (updatable config)).at s p e in
      (
        λ x h.
            adapted-Bounded checks ipv4 x v4 p.settings.ipv4
              (part-InBounds checks ipv4 update_ipv4_settings_dto fs "ipv4" config.ipv4 x
                (record { address = refl; prefix = refl; gateway = refl }) valid refl i4 h)
              (subst (λ o. adapted v4 (internal o) ≡ ok p.settings.ipv4) h a4),
        λ x h.
            adapted-Bounded checks ipv6 x v6 p.settings.ipv6
              (part-InBounds checks ipv6 update_ipv6_settings_dto fs "ipv6" config.ipv6 x
                (record { address = refl; prefix = refl; gateway = refl }) valid refl i6 h)
              (subst (λ o. adapted v6 (internal o) ≡ ok p.settings.ipv6) h a6),
      )

  Updated-OnlyBounded :
      (name : String) (fs : Fields) (config : UpdateNetworkConfigDto) (s t : Calls R)
      (r : Result String)
      → IsValid checks.check update_network_config_dto fs
      → SendsConfig fs config
      → Updated daemon name (updatable config) s r t
      → OnlyBounded checks config s t
  Updated-OnlyBounded name fs config s _ _ valid sends (refused e h) =
      nothing-OnlyBounded checks config s
  Updated-OnlyBounded name fs config s t r valid sends (sent_in_order p h done) =
      Saved-OnlyBounded checks config daemon s t p r
        (prepared-Bounded name fs config s p valid sends h) done

  update_state :
      (api : ApiAddress) (name : String) (config : UpdateNetworkConfigDto) (s : Calls R)
      → (update daemon api name config s).1
        ≡ (update_active_connection_of_device daemon name (updatable config) s).1
  unfolding update
  update_state api name config s =
      elim (Result-cases (update_active_connection_of_device daemon name (updatable config) s).0) [
        | inl (id, e) ↦ rw e
        | inr (x, e) ↦ rw e
      ]

  -- A request to update a network device, whose body has the values of the DTO's types and any other
  -- properties, saves and applies no settings in which a part that the request names has an address
  -- or a gateway that is not of its version of IP, or a prefix above 32 (version 4), below 1 or above
  -- 128 (version 6), whatever is stored and whatever the daemon answers.
  pub update_network_interface-OnlyBounded :
      (api : ApiAddress) (name : String) (fs : Fields) (config : UpdateNetworkConfigDto)
      (s : Calls R)
      → SendsConfig fs config
      → OnlyBounded checks config s (update_network_interface checks daemon api name fs config s).1
  unfolding update_network_interface
  update_network_interface-OnlyBounded api name fs config s sends =
      elim (Result-cases (checks.transform update_network_config_dto fs)) [
        | inr (x, e) ↦ rw e (nothing-OnlyBounded checks config s)
        | inl (gs, e) ↦
            rw (e, update_state api name config s)
              (Updated-OnlyBounded name fs config s _ _
                (checks.transform_accepted update_network_config_dto fs gs e).1 sends
                (update-Updated daemon name (updatable config) s))
      ]
