-- ===== src/Network/Requests/Protection.antt =====
-- Settings are only applied where they can be taken back.
use rpi_nest_api.Prelude.{ℕ, String, ◌≡◌, inl, inr, sym, subst, Bool, List, [], ◌∷◌, ◌++◌, All}
use mathlib.Core.List.{append-nil}
use rpi_nest_api.Exec.{Result-cases}
use rpi_nest_api.Network.Settings.{
  Daemon, DaemonCall, ConnectionVariants, reapply, prepare, commit_changes,
}
use rpi_nest_api.Network.Requests.{
  Task, asked, ready, guarded, stored, answered, advance, now, grown, Event, event, System, Step,
  request, go_on, commit, immediate, Reach, start, next,
}
use rpi_nest_api.Network.Requests.Places.{All-append, All-map, All-replace, All-middle, nil-ne}
use rpi_nest_api.Network.Requests.Kept.{
  Protected, TaskKept, CallKept, Kept, TaskKept-append, CallKept-append, Ordered-append,
  TaskKept-after_prepare, TaskKept-after_checkpoint, TaskKept-after_update,
}

module _ {R : Type 0} where
  -- A call is made that needs nothing but what is kept.
  made-Kept :
      (s : System R) (c : Event R) (ts : List (Task R))
      → Kept s
      → CallKept s.history c.call
      → All (TaskKept (s.history ++ c ∷ [])) ts
      → Kept (record { tasks = ts; history = s.history ++ c ∷ []; put_off = s.put_off })
  made-Kept s c ts k h all = record {
    ordered = Ordered-append s.history c k.ordered h;
    tasks = all;
    calls =
        All-map (CallKept s.history) (CallKept (s.history ++ c ∷ [])) s.put_off
          (CallKept-append s.history c) k.calls;
  }

  -- A request goes on and asks for nothing.
  quiet-Kept :
      (s : System R) (ts : List (Task R)) (later : List (DaemonCall R))
      → Kept s
      → All (TaskKept s.history) ts
      → All (CallKept s.history) later
      → Kept (record { tasks = ts; history = s.history ++ []; put_off = later })
  quiet-Kept s ts later k all calls =
      subst (λ h. Kept (record { tasks = ts; history = h; put_off = later }))
        (sym (append-nil s.history)) (record { ordered = k.ordered; tasks = all; calls = calls })

  -- The tasks after one of them went on.
  abbrev goes_on : System R → Daemon R → List (Task R) → List (Task R) → Task R → System R
  goes_on s daemon before after t = record {
    tasks = before ++ (advance daemon t (now s)).0 ∷ after;
    history = grown daemon s (advance daemon t (now s)).1;
    put_off = (advance daemon t (now s)).1.put_off;
  }

  module _ (s : System R) (k : Kept s) (before after : List (Task R)) where
    replaced :
        (t u : Task R)
        → s.tasks ≡ before ++ t ∷ after
        → TaskKept s.history u
        → All (TaskKept s.history) (before ++ u ∷ after)
    replaced t u e h =
        All-replace (TaskKept s.history) (TaskKept s.history) before after t u (λ z p. p) (λ p. h)
          (subst (All (TaskKept s.history)) e k.tasks)

    of_task : (t : Task R) → s.tasks ≡ before ++ t ∷ after → TaskKept s.history t
    of_task t e =
        All-middle (TaskKept s.history) before after t (subst (All (TaskKept s.history)) e k.tasks)

    replaced_append :
        (t u : Task R) (c : Event R)
        → s.tasks ≡ before ++ t ∷ after
        → (TaskKept s.history t → TaskKept (s.history ++ c ∷ []) u)
        → All (TaskKept (s.history ++ c ∷ [])) (before ++ u ∷ after)
    replaced_append t u c e h =
        All-replace (TaskKept s.history) (TaskKept (s.history ++ c ∷ [])) before after t u
          (TaskKept-append s.history c) h (subst (All (TaskKept s.history)) e k.tasks)

  go_on-Kept :
      (s : System R) (daemon : Daemon R) (before after : List (Task R)) (t : Task R)
      → Kept s
      → s.tasks ≡ before ++ t ∷ after
      → Kept (goes_on s daemon before after t)
  unfolding advance
  go_on-Kept s daemon before after (asked name u) k e =
      quiet-Kept s _ s.put_off k
        (replaced s k before after (asked name u) _ e
          (TaskKept-after_prepare s.history (prepare daemon name u (now s)).0))
        k.calls
  go_on-Kept s daemon before after (ready p) k e = made-Kept s _ _ k tt (
      replaced_append s k before after (ready p) _ _ e (λ h.
        TaskKept-after_checkpoint s.history p (daemon.create_checkpoint (p.device_path ∷ []))))
  go_on-Kept s daemon before after (guarded p id) k e = made-Kept s _ _ k tt (
      replaced_append s k before after (guarded p id) _ _ e (λ h.
        TaskKept-after_update s.history p id (daemon.update_settings p.connection p.settings) h))
  go_on-Kept s daemon before after (stored p id) k e =
      elim (Result-cases (daemon.applied_version p.device_path)) [
        | inr (x, v) ↦
            rw v
              (quiet-Kept s _ s.put_off k (replaced s k before after (stored p id) _ e tt) k.calls)
        | inl (version, v) ↦ rw v (
            quiet-Kept s _ _ k (replaced s k before after (stored p id) _ e tt) (
              All-append (CallKept s.history) s.put_off _ k.calls
                (of_task s k before after (stored p id) e)))
      ]
  go_on-Kept s daemon before after (answered r) k e =
      quiet-Kept s _ s.put_off k (replaced s k before after (answered r) (answered r) e tt) k.calls

  Step-Kept : {s t : System R} → Step s t → Kept s → Kept t
  unfolding commit_changes
  Step-Kept {s} (request name u) k = record {
    ordered = k.ordered;
    tasks = All-append (TaskKept s.history) s.tasks (asked name u) k.tasks tt;
    calls = k.calls;
  }
  Step-Kept {s} (go_on daemon before after t e) k = go_on-Kept s daemon before after t k e
  Step-Kept {s} (commit daemon id) k = made-Kept s _ s.tasks k tt (
      All-map (TaskKept s.history) (TaskKept (s.history ++ _ ∷ [])) s.tasks
        (TaskKept-append s.history _) k.tasks)
  Step-Kept {s} (immediate c rest b e) k =
      let kept = subst (All (CallKept s.history)) e k.calls in
      record {
        ordered = Ordered-append s.history (event c b) k.ordered kept.0;
        tasks =
            All-map (TaskKept s.history) (TaskKept (s.history ++ event c b ∷ [])) s.tasks
              (TaskKept-append s.history (event c b)) k.tasks;
        calls =
            All-map (CallKept s.history) (CallKept (s.history ++ event c b ∷ [])) rest
              (CallKept-append s.history (event c b)) kept.1;
      }

  Reach-Kept : {s : System R} → Reach s → Kept s
  Reach-Kept start = record {
    ordered = λ us vs c e. absurd (nil-ne us vs c e);
    tasks = tt;
    calls = tt;
  }
  Reach-Kept (next r st) = Step-Kept st (Reach-Kept r)

  -- However requests to update devices and to commit, and what they put off, come one between
  -- another, and whatever the daemon answers and whenever: where the daemon is asked to apply settings
  -- to a device, it took them in an Update before, and before that it created a checkpoint of 30
  -- seconds for that device.
  pub Reach-Protected :
      (s : System R) (us vs : List (Event R)) (device : String) (settings : ConnectionVariants R)
      (version flags : ℕ) (is_accepted : Bool)
      → Reach s
      → s.history ≡ us ++ event (reapply device settings version flags) is_accepted ∷ vs
      → Protected us device settings
  Reach-Protected s us vs device settings version flags b r e = (Reach-Kept r).ordered us vs _ e
