-- ===== src/Network/Settings/Checkpoint.antt =====
-- The id of a checkpoint, which a client sends back to confirm its changes.
use Prim.Native.String
use text.Mathlib.TextLemmas.{cons-append, nil-append, append-nil, append_assoc}
use rpi_nest_api.Prelude.{
  String, last, ◌≡◌, refl, sym, ap, ◌∙◌, Option, some, List, [], ◌∷◌, ◌++◌, template,
}
use rpi_nest_api.Text.{split}
use rpi_nest_api.Text.Split.{Lacks, split_whole, split-cons, last-split-append}
use rpi_nest_api.Network.Settings.{
  Daemon, Calls, checkpoint_destroy, checkpoint_prefix, commit_changes,
}

-- The path of a checkpoint with an id.
abbrev pub checkpoint_path : String → String
checkpoint_path id = template (checkpoint_prefix ∷ id ∷ [])

checkpoint_path-slash :
    (id : String)
    → checkpoint_path id
      ≡ String.◌++◌ "/org/freedesktop/NetworkManager/Checkpoint" (String.◌∷◌ "/" id)
checkpoint_path-slash id =
    ap (λ t. String.◌++◌ checkpoint_prefix t) (append-nil id)
    ∙ append_assoc "/org/freedesktop/NetworkManager/Checkpoint" "/" id
    ∙ ap (λ t. String.◌++◌ "/org/freedesktop/NetworkManager/Checkpoint" t)
        (cons-append "/" "" id ∙ ap (λ t. String.◌∷◌ "/" t) (nil-append id))

pub last-checkpoint_path :
    (id : String) → Lacks b'/' id → last (split b'/' (checkpoint_path id)) ≡ some id
last-checkpoint_path id h =
    ap (λ t. last (split b'/' t)) (checkpoint_path-slash id)
    ∙ last-split-append b'/' "/org/freedesktop/NetworkManager/Checkpoint" "/" id refl
    ∙ ap last (split_whole b'/' id h)

last-some : (t : String) (ts : List String) → (id : String) × (last (t ∷ ts) ≡ some id)
last-some t [] = (t, refl)
last-some t (u ∷ ts) = last-some u ts

-- A path, of whatever form, has a last part: the branch that reports an invalid path is dead.
pub last-split-some : (path : String) → (id : String) × (last (split b'/' path) ≡ some id)
last-split-some path =
    let (t, ts, e) = split-cons b'/' path in let (id, l) = last-some t ts in (id, ap last e ∙ l)

some-injective : (x y : String) → Path (Option String) (some x) (some y) → x ≡ y
some-injective x y e = cc

module _ {R : Type 0} (daemon : Daemon R) where
  -- Confirming with the id that an update returned destroys the checkpoint that it created, where
  -- the daemon's path is its usual prefix and an id with no slash.
  pub commit_changes-checkpoint :
      (path id returned : String) (s : Calls R)
      → Lacks b'/' id
      → path ≡ checkpoint_path id
      → last (split b'/' path) ≡ some returned
      → commit_changes daemon returned s ≡ (
        daemon.destroy_checkpoint path,
        record s { made = s.made ++ checkpoint_destroy path ∷ [] },
      )
  unfolding commit_changes
  commit_changes-checkpoint path id returned s h e l =
      let same : returned ≡ id =
        some-injective returned id
          (sym l ∙ ap (λ p. last (split b'/' p)) e ∙ last-checkpoint_path id h) in
      rw (same, e)
