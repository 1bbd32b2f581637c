-- ===== src/Network/Requests/Alone.antt =====
-- A request that nothing interrupts.
use rpi_nest_api.Prelude.{last, String, ◌≡◌, inl, inr, Option-cases, [], ◌∷◌}
use rpi_nest_api.Exec.{Result-cases}
use rpi_nest_api.Text.{split}
use rpi_nest_api.Network.Settings.{
  Daemon, Calls, UpdatableSettings, Prepared, prepare, save, save_after_checkpoint,
  update_active_connection_of_device,
}
use rpi_nest_api.Network.Settings.Order.{prepare-Quiet}
use rpi_nest_api.Network.Requests.{Task, asked, ready, answered, advance}

module _ {R : Type 0} (daemon : Daemon R) where
  -- Four steps of a request, one after the other.
  abbrev pub step : Task R × Calls R → Task R × Calls R
  step (t, s) = advance daemon t s

  pub alone : String → UpdatableSettings → Calls R → Task R × Calls R
  alone name u s = step (step (step (step (asked name u, s))))

  alone-saved :
      (p : Prepared R) (s : Calls R)
      → step (step (step (ready p, s))) ≡ (
        answered (save_after_checkpoint daemon p.device_path p.connection p.settings s).0,
        (save_after_checkpoint daemon p.device_path p.connection p.settings s).1,
      )
  unfolding advance save_after_checkpoint save
  alone-saved p s = elim (Result-cases (daemon.create_checkpoint (p.device_path ∷ []))) [
    | inr (x, c) ↦ rw c
    | inl (path, c) ↦ elim (Option-cases (last (split b'/' path))) [
      | inl e ↦ rw (c, e)
      | inr (id, e) ↦ elim (Result-cases (daemon.update_settings p.connection p.settings)) [
        | inr (x, u) ↦ rw (c, e, u)
        | inl (_, u) ↦ elim (Result-cases (daemon.applied_version p.device_path)) [
          | inr (x, v) ↦ rw (c, e, u, v)
          | inl (version, v) ↦ rw (c, e, u, v)
        ]
      ]
    ]
  ]

  -- A request that nothing interrupts, with a daemon that does not change its answers, ends as
  -- updateActiveConnectionOfDevice does.
  pub alone-eq-update :
      (name : String) (u : UpdatableSettings) (s : Calls R)
      → alone name u s ≡ (
        answered (update_active_connection_of_device daemon name u s).0,
        (update_active_connection_of_device daemon name u s).1,
      )
  unfolding alone advance update_active_connection_of_device
  alone-eq-update name u s = elim (Result-cases (prepare daemon name u s).0) [
    | inr (e, h) ↦ rw (h, (prepare-Quiet daemon name u).at s)
    | inl (p, h) ↦ rw (h, (prepare-Quiet daemon name u).at s) (alone-saved p s)
  ]
