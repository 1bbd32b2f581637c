-- ===== src/Network/Service/Confirmation.antt =====
-- The address that an update returns confirms that update.
use rpi_nest_api.Prelude.{last, String, ◌≡◌, sym, ap, ◌∙◌, some, inl, inr, List, [], ◌∷◌}
use rpi_nest_api.Exec.{Result, ok, err, Exception, Result-cases}
use rpi_nest_api.Text.{split}
use rpi_nest_api.Text.Split.{Lacks}
use rpi_nest_api.Network.Settings.{
  Daemon, Calls, Prepared, UpdatableSettings, checkpoint_destroy,
  update_active_connection_of_device,
}
use rpi_nest_api.Network.Settings.Order.{
  Saved, no_checkpoint, not_saved, saved, Updated, refused, sent_in_order, sent, update-Updated,
}
use rpi_nest_api.Network.Settings.Checkpoint.{checkpoint_path, commit_changes-checkpoint}
use rpi_nest_api.Network.Service.{
  ApiAddress, UpdateNetworkConfigDto, updatable, confirmation_url, or_bad_request, update, commit,
}

-- The paths of NetworkManager's checkpoints are its usual prefix and an id without a slash.
abbrev pub NamesCheckpoints : {R : Type 0} → Daemon R → Type 0
NamesCheckpoints daemon =
    (devices : List String) (path : String)
    → daemon.create_checkpoint devices ≡ ok path
    → (id : String) × Lacks b'/' id × (path ≡ checkpoint_path id)

module _ {R : Type 0} (daemon : Daemon R) where
  -- A checkpoint that the daemon created, with the id that was returned for it.
  abbrev CreatedAs : String → Type 0
  CreatedAs id =
      (device : String) × (path : String) × (daemon.create_checkpoint (device ∷ []) ≡ ok path)
      × (last (split b'/' path) ≡ some id)

  ok-injective : (x y : String) → Path (Result String) (ok x) (ok y) → x ≡ y
  ok-injective x y p = cc

  err-ok : (e : Exception) (y : String) → Path (Result String) (err e) (ok y) → ⊥
  err-ok e y p = cc

  err-pair :
      (e : Exception) (y : String) (s s' : Calls R)
      → Path (Result String × Calls R) (err e, s) (ok y, s')
      → ⊥
  err-pair e y s s' p = err-ok e y (ap (λ q. q.0) p)

  Saved-created :
      (s s' : Calls R) (p : Prepared R) (r : Result String) (id : String)
      → Saved daemon s p r s'
      → r ≡ ok id
      → CreatedAs id
  Saved-created s s' p r id (no_checkpoint e why) h = absurd (err-ok e id h)
  Saved-created s s' p r id (not_saved path id' x c why) h = absurd (err-ok _ id h)
  Saved-created s s' p r id (saved path id' version (created, l) u v) h =
      (p.device_path, path, created, l ∙ ap some (ok-injective id' id h))

  Updated-created :
      (name : String) (u : UpdatableSettings) (s s' : Calls R) (r : Result String) (id : String)
      → Updated daemon name u s r s'
      → r ≡ ok id
      → CreatedAs id
  Updated-created name u s s' r id (refused e h) p = absurd (err-ok e id p)
  Updated-created name u s s' r id (sent_in_order q h w) p = Saved-created s s' q r id w p

  update_ok :
      (api : ApiAddress) (name : String) (config : UpdateNetworkConfigDto) (s : Calls R)
      (id : String)
      → (update_active_connection_of_device daemon name (updatable config) s).0 ≡ ok id
      → update daemon api name config s ≡ (
        ok (confirmation_url api id),
        (update_active_connection_of_device daemon name (updatable config) s).1,
      )
  unfolding update
  update_ok api name config s id h = rw h

  update_err :
      (api : ApiAddress) (name : String) (config : UpdateNetworkConfigDto) (s : Calls R)
      (x : Exception)
      → (update_active_connection_of_device daemon name (updatable config) s).0 ≡ err x
      → update daemon api name config s
        ≡ (err x, (update_active_connection_of_device daemon name (updatable config) s).1)
  unfolding update
  update_err api name config s x h = rw h

  commit_created :
      (path id : String) (s : Calls R)
      → NamesCheckpoints daemon
      → (device : String) → daemon.create_checkpoint (device ∷ []) ≡ ok path
      → last (split b'/' path) ≡ some id
      → commit daemon id s
        ≡ (or_bad_request (daemon.destroy_checkpoint path), sent s (checkpoint_destroy path))
  unfolding commit
  commit_created path id s names device created l =
      let (i, h, e) = names (device ∷ []) path created in
      rw (commit_changes-checkpoint daemon path i id s h e l)

  -- An update that succeeds returns the address for an id, and a commit of that id asks the daemon
  -- to destroy the very checkpoint that it created for the update, and succeeds if the daemon does;
  -- any failure of the daemon is a bad request. The daemon names its checkpoints in its usual way.
  pub update-commit :
      (api : ApiAddress) (name url : String) (config : UpdateNetworkConfigDto) (s s' : Calls R)
      → NamesCheckpoints daemon
      → update daemon api name config s ≡ (ok url, s')
      → (device : String) × (path : String) × (id : String) × (daemon.create_checkpoint
            (device ∷ [])
          ≡ ok path)
        × (url ≡ confirmation_url api id)
        × (commit daemon id s'
            ≡ (or_bad_request (daemon.destroy_checkpoint path), sent s' (checkpoint_destroy path)))
  update-commit api name url config s s' names e =
      elim (Result-cases (update_active_connection_of_device daemon name (updatable config) s).0) [
        | inr (x, h) ↦ absurd (err-pair x url _ s' (sym (update_err api name config s x h) ∙ e))
        | inl (id, h) ↦
            let (device, path, created, l) =
              Updated-created name (updatable config) s _ _ id
                (update-Updated daemon name (updatable config) s) h in
            (
              device,
              path,
              id,
              created,
              ok-injective url (confirmation_url api id)
                  (ap (λ q. q.0) (sym e ∙ update_ok api name config s id h)),
              commit_created path id s' names device created l,
            )
      ]
