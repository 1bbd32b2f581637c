-- ===== src/Network/Requests.antt =====
-- Requests to update network devices and to commit, as the event loop runs them: a request stops at
-- each call to the daemon, others go on meanwhile, and what `setImmediate` has put off runs between
-- them. The daemon may answer differently at each step.
use rpi_nest_api.Prelude.{
  last, String, Option, none, some, List, [], ◌∷◌, ◌++◌, ◌≡◌, template, map, Bool, true, false,
}
use rpi_nest_api.Exec.{Void, Exception, Result, ok, err, error, internal_server_error}
use rpi_nest_api.Text.{split}
use rpi_nest_api.Network.Settings.{
  Daemon, Calls, DaemonCall, Prepared, UpdatableSettings, checkpoint_create, checkpoint_destroy,
  update_connection, reapply, no_checkpoint, update_failed, prepare, commit_changes, save,
}
pub mod Alone
pub mod Places
pub mod Kept
pub mod Protection

-- Where a request to update a device is: it came in, it has made the settings, it has a checkpoint,
-- it has saved the settings, or it is answered.
pub data Task (R : Type 0) : Type 0 where
  asked : String → UpdatableSettings → Task R
  ready : Prepared R → Task R
  guarded : Prepared R → (checkpoint_id : String) → Task R
  stored : Prepared R → (checkpoint_id : String) → Task R
  answered : Result String → Task R

module _ {R : Type 0} where
  abbrev pub sent : Calls R → DaemonCall R → Calls R
  sent s c = record s { made = s.made ++ c ∷ [] }

  abbrev pub after_prepare : Result (Prepared R) → Task R
  after_prepare (ok p) = ready p
  after_prepare (err e) = answered (err e)

  abbrev pub with_id : Prepared R → Option String → Task R
  with_id p none = answered (err (error no_checkpoint))
  with_id p (some checkpoint_id) = guarded p checkpoint_id

  abbrev pub after_checkpoint : Prepared R → Result String → Task R
  after_checkpoint p (ok path) = with_id p (last (split b'/' path))
  after_checkpoint p (err e) = answered (err e)

  abbrev pub after_update : Prepared R → String → Result Void → Task R
  after_update p checkpoint_id (ok _) = stored p checkpoint_id
  after_update p checkpoint_id (err _) = answered (err (internal_server_error update_failed))

  abbrev pub after_version :
      Prepared R
      → String
      → {V : Type 0} → Result V
      → (V → DaemonCall R)
      → Calls R
      → Task R × Calls R
  after_version p checkpoint_id (ok version) call s =
      (answered (ok checkpoint_id), record s { put_off = s.put_off ++ call version ∷ [] })
  after_version p checkpoint_id (err _) call s =
      (answered (err (internal_server_error update_failed)), s)

  -- A request up to its next call that changes the daemon, and that call's answer. The calls that
  -- only read ask for different things, so one daemon stands for all their answers.
  unfoldable pub advance : Daemon R → Task R → Calls R → Task R × Calls R
  advance daemon (asked name u) s = (after_prepare (prepare daemon name u s).0, s)
  advance daemon (ready p) s = (
    after_checkpoint p (daemon.create_checkpoint (p.device_path ∷ [])),
    sent s (checkpoint_create (p.device_path ∷ []) 30 0),
  )
  advance daemon (guarded p checkpoint_id) s = (
    after_update p checkpoint_id (daemon.update_settings p.connection p.settings),
    sent s (update_connection p.connection p.settings),
  )
  advance daemon (stored p checkpoint_id) s =
      after_version p checkpoint_id (daemon.applied_version p.device_path)
        (λ version. reapply p.device_path p.settings version 0) s
  advance daemon (answered r) s = (answered r, s)

-- A call that the daemon was asked to make, and whether it made it.
pub record Event (R : Type 0) : Type 0 where
  pub call : DaemonCall R
  pub is_accepted : Bool

abbrev pub is_ok : {A : Type 0} → Result A → Bool
is_ok (ok a) = true
is_ok (err e) = false

abbrev pub event : {R : Type 0} → DaemonCall R → Bool → Event R
event c b = record { call = c; is_accepted = b }

-- What the daemon answers to a call; nobody reads its answer to one that was put off.
abbrev pub answered_by : {R : Type 0} → Daemon R → DaemonCall R → Event R
answered_by daemon (checkpoint_create devices timeout flags) =
    event (checkpoint_create devices timeout flags) (is_ok (daemon.create_checkpoint devices))
answered_by daemon (checkpoint_destroy path) =
    event (checkpoint_destroy path) (is_ok (daemon.destroy_checkpoint path))
answered_by daemon (update_connection connection settings) =
    event (update_connection connection settings)
      (is_ok (daemon.update_settings connection settings))
answered_by daemon (reapply device settings version flags) =
    event (reapply device settings version flags) true

-- The requests, all that the daemon was asked for with its answers, and what is put off.
pub record System (R : Type 0) : Type 0 where
  pub tasks : List (Task R)
  pub history : List (Event R)
  pub put_off : List (DaemonCall R)

module _ {R : Type 0} where
  abbrev pub idle : System R
  idle = record { tasks = []; history = []; put_off = [] }

  -- Nothing was asked for in this step yet.
  abbrev pub now : System R → Calls R
  now s = record { made = []; put_off = s.put_off }

  -- The history after a step, with a daemon, that asked for these calls.
  abbrev pub grown : Daemon R → System R → Calls R → List (Event R)
  grown daemon s calls = s.history ++ map (answered_by daemon) calls.made

  -- A request comes in, one goes on, a client commits, or the first call that was put off is made,
  -- with any answer; its error would only be logged.
  pub data Step (s : System R) : System R → Type 0 where
    request :
        (name : String) (u : UpdatableSettings)
        → Step s (record s { tasks = s.tasks ++ asked name u ∷ [] })
    go_on :
        (daemon : Daemon R) (before after : List (Task R)) (t : Task R)
        → s.tasks ≡ before ++ t ∷ after
        → Step s (record {
          tasks = before ++ (advance daemon t (now s)).0 ∷ after;
          history = grown daemon s (advance daemon t (now s)).1;
          put_off = (advance daemon t (now s)).1.put_off;
        })
    commit :
        (daemon : Daemon R) (checkpoint_id : String)
        → Step s
            (record s { history = grown daemon s (commit_changes daemon checkpoint_id (now s)).1 })
    immediate :
        (c : DaemonCall R) (rest : List (DaemonCall R)) (is_accepted : Bool)
        → s.put_off ≡ c ∷ rest
        → Step s (record s { history = s.history ++ event c is_accepted ∷ []; put_off = rest })

  pub data Reach : System R → Type 0 where
    start : Reach idle
    next : {s t : System R} → Reach s → Step s t → Reach t
