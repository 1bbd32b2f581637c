-- ===== src/Network/Requests/Kept.antt =====
-- What is known of the requests and of the calls that were made or put off.
use rpi_nest_api.Prelude.{
  String, ◌≡◌, inl, inr, refl, true, ap, ◌∙◌, Option, none, some, List, [], ◌∷◌, ◌++◌, All,
}
use mathlib.Core.List.{append_assoc}
use rpi_nest_api.Exec.{Void, Result, ok, err}
use rpi_nest_api.Network.Settings.{
  DaemonCall, ConnectionVariants, Prepared, checkpoint_create, checkpoint_destroy,
  update_connection, reapply,
}
use rpi_nest_api.Network.Requests.{
  Task, asked, ready, guarded, stored, answered, with_id, after_prepare, after_checkpoint,
  after_update, System, Event, event, is_ok,
}
use rpi_nest_api.Network.Requests.Places.{append-cases}

abbrev pub Trace : Type 0 → Type 0
Trace R = List (Event R)

module _ {R : Type 0} where
  -- A checkpoint of 30 seconds was created for the device.
  abbrev pub Checkpointed : List (Event R) → String → Type 0
  Checkpointed made device =
      (before : List (Event R)) × (after : List (Event R)) × (made
        ≡ before ++ event (checkpoint_create (device ∷ []) 30 0) true ∷ after)

  -- The daemon took the settings after that.
  abbrev pub Protected : List (Event R) → String → ConnectionVariants R → Type 0
  Protected made device settings =
      (before : List (Event R)) × (after : List (Event R)) × (connection : String) × (made
        ≡ before ++ event (update_connection connection settings) true ∷ after)
      × Checkpointed before device

  Checkpointed-append :
      (made : Trace R) (c : Event R) (device : String)
      → Checkpointed made device
      → Checkpointed (made ++ c ∷ []) device
  Checkpointed-append made c device (before, after, e) = (
    before,
    after ++ c ∷ [],
    ap (λ (l : Trace R). l ++ c ∷ []) e ∙ append_assoc before _ (c ∷ []),
  )

  Protected-append :
      (made : Trace R) (c : Event R) (device : String) (settings : ConnectionVariants R)
      → Protected made device settings
      → Protected (made ++ c ∷ []) device settings
  Protected-append made c device settings (before, after, connection, e, h) = (
    before,
    after ++ c ∷ [],
    connection,
    ap (λ (l : Trace R). l ++ c ∷ []) e ∙ append_assoc before _ (c ∷ []),
    h,
  )

  -- What is known of a request, and of a call that was put off.
  abbrev pub TaskKept : (Trace R) → Task R → Type 0
  TaskKept made (asked name u) = Unit
  TaskKept made (ready p) = Unit
  TaskKept made (guarded p id) = Checkpointed made p.device_path
  TaskKept made (stored p id) = Protected made p.device_path p.settings
  TaskKept made (answered r) = Unit

  abbrev pub CallKept : (Trace R) → DaemonCall R → Type 0
  CallKept made (checkpoint_create devices timeout flags) = Unit
  CallKept made (checkpoint_destroy path) = Unit
  CallKept made (update_connection path settings) = Unit
  CallKept made (reapply device settings version flags) = Protected made device settings

  -- Each call stands after what it needs.
  abbrev pub Ordered : (Trace R) → Type 0
  Ordered made = (us vs : Trace R) (c : Event R) → made ≡ us ++ c ∷ vs → CallKept us c.call

  pub record Kept (s : System R) : Type 0 where
    pub ordered : Ordered s.history
    pub tasks : All (TaskKept s.history) s.tasks
    pub calls : All (CallKept s.history) s.put_off

  pub TaskKept-append :
      (made : Trace R) (c : Event R) (t : Task R) → TaskKept made t → TaskKept (made ++ c ∷ []) t
  TaskKept-append made c (asked name u) h = tt
  TaskKept-append made c (ready p) h = tt
  TaskKept-append made c (guarded p id) h = Checkpointed-append made c p.device_path h
  TaskKept-append made c (stored p id) h = Protected-append made c p.device_path p.settings h
  TaskKept-append made c (answered r) h = tt

  pub CallKept-append :
      (made : Trace R) (c : Event R) (d : DaemonCall R)
      → CallKept made d
      → CallKept (made ++ c ∷ []) d
  CallKept-append made c (checkpoint_create devices timeout flags) h = tt
  CallKept-append made c (checkpoint_destroy path) h = tt
  CallKept-append made c (update_connection path settings) h = tt
  CallKept-append made c (reapply device settings version flags) h =
      Protected-append made c device settings h

  pub Ordered-append :
      (made : Trace R) (c : Event R)
      → Ordered made
      → CallKept made c.call
      → Ordered (made ++ c ∷ [])
  Ordered-append made c o k us vs d e = elim (append-cases made us vs c d e) [
    | inl (p, q) ↦ rw (p, q) k
    | inr (cs, p) ↦ o us cs d p
  ]

  pub TaskKept-after_prepare :
      (made : Trace R) (r : Result (Prepared R)) → TaskKept made (after_prepare r)
  TaskKept-after_prepare made (ok p) = tt
  TaskKept-after_prepare made (err e) = tt

  TaskKept-with_id :
      (made : Trace R) (p : Prepared R) (id : Option String)
      → Checkpointed made p.device_path
      → TaskKept made (with_id p id)
  TaskKept-with_id made p none h = tt
  TaskKept-with_id made p (some id) h = h

  pub TaskKept-after_checkpoint :
      (made : Trace R) (p : Prepared R) (r : Result String)
      → TaskKept
          (made ++ event (checkpoint_create (p.device_path ∷ []) 30 0) (is_ok r) ∷ [])
          (after_checkpoint p r)
  TaskKept-after_checkpoint made p (ok path) = TaskKept-with_id _ p _ (made, [], refl)
  TaskKept-after_checkpoint made p (err e) = tt

  pub TaskKept-after_update :
      (made : Trace R) (p : Prepared R) (id : String) (r : Result Void)
      → Checkpointed made p.device_path
      → TaskKept
          (made ++ event (update_connection p.connection p.settings) (is_ok r) ∷ [])
          (after_update p id r)
  TaskKept-after_update made p id (ok _) h = (made, [], p.connection, refl, h)
  TaskKept-after_update made p id (err e) h = tt
