-- ===== src/Network/Settings/Order.antt =====
-- Which calls reach the daemon, and in which order.
use rpi_nest_api.Prelude.{
  last, ℕ, String, ◌≡◌, ◌⊎◌, inl, inr, refl, Option, none, some, [], ◌∷◌, ◌++◌, Bool-cases,
  Option-cases, ◌==◌,
}
use rpi_nest_api.Exec.{Result, ok, err, Result-cases, Exception, error, internal_server_error}
use rpi_nest_api.Exec.Quiet.{Quiet, Quiet-pure, Quiet-throw, Quiet-lift, Quiet-bind}
use rpi_nest_api.Text.{split}
use rpi_nest_api.Network.Settings as Settings
use rpi_nest_api.Network.Settings.{
  Daemon, Calls, DaemonCall, UpdatableSettings, Prepared, checkpoint_create, update_connection,
  reapply, fail_with, update_failed, device_or_throw, prepare, save, save_after_checkpoint,
  update_active_connection_of_device,
}

module _ {R : Type 0} where
  abbrev pub sent : Calls R → DaemonCall R → Calls R
  sent s c = record s { made = s.made ++ c ∷ [] }

  abbrev pub checkpointed : Calls R → Prepared R → Calls R
  checkpointed s p = sent s (checkpoint_create (p.device_path ∷ []) 30 0)

  abbrev pub updated : Calls R → Prepared R → Calls R
  updated s p = sent (checkpointed s p) (update_connection p.connection p.settings)

  abbrev pub reapplied : Calls R → Prepared R → ℕ → Calls R
  reapplied s p version = record s {
    put_off = s.put_off ++ reapply p.device_path p.settings version 0 ∷ [];
  }

module _ {R : Type 0} (daemon : Daemon R) where
  -- A checkpoint with this path was created for the device, and this is the last part of the path.
  abbrev pub Created : Prepared R → String → String → Type 0
  Created p path id =
      (daemon.create_checkpoint (p.device_path ∷ []) ≡ ok path) × (last (split b'/' path) ≡ some id)

  -- Why there is no checkpoint: the daemon refuses it, or its path has no last part.
  abbrev pub NotCreated : Prepared R → Exception → Type 0
  NotCreated p e =
      (daemon.create_checkpoint (p.device_path ∷ []) ≡ err e)
      ⊎ ((path : String) × (daemon.create_checkpoint (p.device_path ∷ []) ≡ ok path)
          × (last (split b'/' path) ≡ none)
          × (e ≡ error Settings.no_checkpoint))

  -- Why the application is not put off: the daemon refuses the settings, or takes them and does not
  -- give the version.
  abbrev pub NotSaved : Prepared R → Exception → Type 0
  NotSaved p x =
      (daemon.update_settings p.connection p.settings ≡ err x)
      ⊎ ((daemon.update_settings p.connection p.settings ≡ ok tt)
          × (daemon.applied_version p.device_path ≡ err x))

  -- The ways in which saving the settings `p` can end, by what the daemon answers: with no
  -- checkpoint, with a checkpoint but no saved settings or no version of them, or with all and the
  -- application put off.
  pub data Saved (s : Calls R) (p : Prepared R) : Result String → Calls R → Type 0 where
    no_checkpoint : (e : Exception) → NotCreated p e → Saved s p (err e) (checkpointed s p)
    not_saved :
        (path id : String) (x : Exception)
        → Created p path id
        → NotSaved p x
        → Saved s p (err (internal_server_error update_failed)) (updated s p)
    saved :
        (path id : String) (version : ℕ)
        → Created p path id
        → daemon.update_settings p.connection p.settings ≡ ok tt
        → daemon.applied_version p.device_path ≡ ok version
        → Saved s p (ok id) (reapplied (updated s p) p version)

  save-Saved :
      (s : Calls R) (p : Prepared R) (path id : String)
      → Created p path id
      → let r =
          fail_with daemon
            (save daemon p.device_path p.connection p.settings id (checkpointed s p)) in
        Saved s p r.0 r.1
  unfolding save
  save-Saved s p path id created =
      elim (Result-cases (daemon.update_settings p.connection p.settings)) [
        | inr (x, u) ↦ rw u (not_saved path id x created (inl u))
        | inl (_, u) ↦ elim (Result-cases (daemon.applied_version p.device_path)) [
          | inr (x, v) ↦ rw (u, v) (not_saved path id x created (inr (u, v)))
          | inl (version, v) ↦ rw (u, v) (saved path id version created u v)
        ]
      ]

  save_after_checkpoint-Saved :
      (s : Calls R) (p : Prepared R)
      → Saved s p
          (save_after_checkpoint daemon p.device_path p.connection p.settings s).0
          (save_after_checkpoint daemon p.device_path p.connection p.settings s).1
  unfolding save_after_checkpoint
  save_after_checkpoint-Saved s p =
      elim (Result-cases (daemon.create_checkpoint (p.device_path ∷ []))) [
        | inr (x, c) ↦ rw c (no_checkpoint x (inl c))
        | inl (path, c) ↦ elim (Option-cases (last (split b'/' path))) [
          | inl e ↦ rw (c, e) (no_checkpoint _ (inr (path, c, e, refl)))
          | inr (id, e) ↦ rw (c, e) (save-Saved s p path id (c, e))
        ]
      ]

  device_or_throw-Quiet :
      (name : String) (found : Option String) → Quiet (device_or_throw daemon name found)
  device_or_throw-Quiet name none = Quiet-throw _
  device_or_throw-Quiet name (some path) = elim (Bool-cases (path == "/")) [
    | inl e ↦ rw e (Quiet-throw _)
    | inr e ↦ rw e (Quiet-pure _)
  ]

  pub prepare-Quiet : (name : String) (u : UpdatableSettings) → Quiet (prepare daemon name u)
  unfolding prepare
  prepare-Quiet name u = search (Quiet-pure, Quiet-lift, Quiet-bind, device_or_throw-Quiet) depth 10

  -- The ways in which an update can end: refused before anything is sent, or saved as above.
  pub data Updated (name : String) (u : UpdatableSettings) (s : Calls R)
      : Result String → Calls R → Type 0 where
    refused : (e : Exception) → (prepare daemon name u s).0 ≡ err e → Updated name u s (err e) s
    sent_in_order :
        {r : Result String} {s' : Calls R} (p : Prepared R)
        → (prepare daemon name u s).0 ≡ ok p
        → Saved s p r s'
        → Updated name u s r s'

  -- An update sends nothing if the device or the settings are refused. Otherwise it first asks for a
  -- checkpoint of 30 seconds for the device; only if one is created, it sends the settings to save;
  -- and only if the daemon has taken them and has given the applied version, it puts off their
  -- application with that version. Exactly then it returns the last part of the checkpoint's path;
  -- it throws the daemon's error if the checkpoint fails, and an internal error if what follows does.
  pub update-Updated :
      (name : String) (u : UpdatableSettings) (s : Calls R)
      → Updated name u s
          (update_active_connection_of_device daemon name u s).0
          (update_active_connection_of_device daemon name u s).1
  unfolding update_active_connection_of_device
  update-Updated name u s = elim (Result-cases (prepare daemon name u s).0) [
    | inr (e, h) ↦ rw (h, (prepare-Quiet name u).at s) (refused e h)
    | inl (p, h) ↦
        rw (h, (prepare-Quiet name u).at s) (sent_in_order p h (save_after_checkpoint-Saved s p))
  ]
