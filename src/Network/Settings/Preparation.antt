-- ===== src/Network/Settings/Preparation.antt =====
-- What the settings are that an update sends.
use rpi_nest_api.Prelude.{String, ◌≡◌}
use rpi_nest_api.Exec.{ok, lift}
use rpi_nest_api.Exec.Gives.{Gives, Gives-bind, Gives-lift, Gives-pure}
use rpi_nest_api.Network.Adapter.{IpVariants}
use rpi_nest_api.Network.Settings.{
  Daemon, UpdatableSettings, Prepared, adapted, prepare, device_or_throw,
}

module _ {R : Type 0} where
  -- Both parts of the settings are what the adapter makes of some stored ones.
  abbrev pub IsAdapted : UpdatableSettings → Prepared R → Type 0
  IsAdapted u p =
      (v4 : IpVariants R) × (v6 : IpVariants R) × (adapted v4 u.ipv4 ≡ ok p.settings.ipv4)
      × (adapted v6 u.ipv6 ≡ ok p.settings.ipv6)

  pub prepare-IsAdapted :
      (daemon : Daemon R) (name : String) (u : UpdatableSettings)
      → Gives (IsAdapted u) (prepare daemon name u)
  unfolding prepare
  prepare-IsAdapted daemon name u =
      Gives-bind _ (lift (daemon.get_device_by_ip_iface name)) _ λ found.
        Gives-bind _ (device_or_throw daemon name found) _ λ device_path.
          Gives-bind _ (lift (daemon.active_connection device_path)) _ λ active.
            Gives-bind _ (lift (daemon.connection active)) _ λ connection.
              Gives-bind _ (lift (daemon.get_settings connection)) _ λ current.
                Gives-lift _ (adapted current.ipv4 u.ipv4) _ λ ipv4 e4.
                  Gives-lift _ (adapted current.ipv6 u.ipv6) _
                    λ ipv6 e6. Gives-pure _ _ (current.ipv4, current.ipv6, e4, e6)
