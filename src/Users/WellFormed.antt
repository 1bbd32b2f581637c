-- ===== src/Users/WellFormed.antt =====
-- What stays true of the stored users whatever requests are made.
use rpi_nest_api.Prelude.{
  ℕ, ◌≤◌, String, ◌≡◌, ◌≢◌, refl, some, List, [], ◌∷◌, arith, ◌==◌, eq_iff, All, Bool-cases,
  Option-cases, inl, inr,
}
use rpi_nest_api.Users.{
  merge, UserData, UserStore, Call, create_call, update_call, remove_call, perform_all,
}
use rpi_nest_api.Users.Directory.{
  Directory, view, specified, specified_all, perform_all-eq-specified_all,
}

-- A user stands under its own login, and was created no later than modified, no later than now.
pub record IsEntry (now : ℕ) (k : String) (u : UserData) : Type 0 where
  pub keyed : u.login ≡ k
  pub ordered : u.created ≤ u.modified
  pub past : u.modified ≤ now

abbrev pub IsWellFormed : ℕ → Directory → Type 0
IsWellFormed now m = (k : String) (u : UserData) → m k ≡ some u → IsEntry now k u

abbrev pub time_of : Call → ℕ
time_of (create_call t _ _) = t
time_of (update_call t _ _) = t
time_of (remove_call t _) = t

-- The clock does not go back.
abbrev pub InOrder : ℕ → List Call → Type 0
InOrder t [] = Unit
InOrder t (c ∷ cs) = (t ≤ time_of c) × InOrder (time_of c) cs

abbrev pub last_time : ℕ → List Call → ℕ
last_time t [] = t
last_time t (c ∷ cs) = last_time (time_of c) cs

specified-IsWellFormed :
    (t : ℕ) (c : Call) (m : Directory)
    → t ≤ time_of c
    → IsWellFormed t m
    → IsWellFormed (time_of c) (specified c m).1
unfolding specified
specified-IsWellFormed t (create_call now k c) m le h j u e = ground (arith, h j u, eq_iff k j)
specified-IsWellFormed t (update_call now k c) m le h j u e = elim (Option-cases (m k)) [
  | inl a ↦ ground (arith, h j u)
  | inr (v, a) ↦ ground (arith, h j u, h k v, eq_iff k j)
]
specified-IsWellFormed t (remove_call now k) m le h j u e = ground (arith, h j u, eq_iff k j)

specified_all-IsWellFormed :
    (t : ℕ) (cs : List Call) (m : Directory)
    → InOrder t cs
    → IsWellFormed t m
    → IsWellFormed (last_time t cs) (specified_all cs m).1
unfolding specified_all
specified_all-IsWellFormed t [] m _ h = h
specified_all-IsWellFormed t (c ∷ cs) m (le, later) h =
    specified_all-IsWellFormed (time_of c) cs (specified c m).1 later
      (specified-IsWellFormed t c m le h)

-- The call does not remove the user `k`.
abbrev pub Spares : String → Call → Type 0
Spares k (remove_call _ j) = j ≢ k
Spares k _ = Unit

-- The user `k` is there, and is the one that `u` describes.
abbrev pub Continues : String → UserData → Directory → Type 0
Continues k u m = (v : UserData) × (m k ≡ some v) × (v.login ≡ u.login) × (v.created ≡ u.created)

specified-Continues :
    (k : String) (u : UserData) (c : Call) (m : Directory)
    → Spares k c
    → Continues k u m
    → Continues k u (specified c m).1
unfolding specified
specified-Continues k u (create_call now j c) m _ (v, e, l, t) =
    (v, ground (arith, eq_iff j k), l, t)
specified-Continues k u (update_call now j c) m _ (v, e, l, t) = elim (Bool-cases (j == k)) [
  | inl same ↦ (merge now v c, ground (arith, eq_iff j k), l, t)
  | inr other ↦ (v, ground arith, l, t)
]
specified-Continues k u (remove_call now j) m spared (v, e, l, t) =
    (v, ground (arith, eq_iff j k), l, t)

specified_all-Continues :
    (k : String) (u : UserData) (cs : List Call) (m : Directory)
    → All (Spares k) cs
    → Continues k u m
    → Continues k u (specified_all cs m).1
unfolding specified_all
specified_all-Continues k u [] m _ h = h
specified_all-Continues k u (c ∷ cs) m (now, later) h =
    specified_all-Continues k u cs (specified c m).1 later (specified-Continues k u c m now h)

module _ {St : Type 0} (db : UserStore St) where
  -- If the clock does not go back, calls keep the store well formed: each user stands under its own
  -- login, and was created no later than modified, and modified no later than the last call.
  pub perform_all-IsWellFormed :
      (t : ℕ) (cs : List Call) (s : St)
      → InOrder t cs
      → IsWellFormed t (view db s)
      → IsWellFormed (last_time t cs) (view db (perform_all db cs s).1)
  perform_all-IsWellFormed t cs s order h =
      rw (perform_all-eq-specified_all db cs s).1
        (specified_all-IsWellFormed t cs (view db s) order h)

  -- A user that no call of a sequence removes is still there after it, with the same login and the
  -- same time of creation.
  pub perform_all-Continues :
      (k : String) (u : UserData) (cs : List Call) (s : St)
      → All (Spares k) cs
      → view db s k ≡ some u
      → Continues k u (view db (perform_all db cs s).1)
  perform_all-Continues k u cs s spared e =
      rw (perform_all-eq-specified_all db cs s).1
        (specified_all-Continues k u cs (view db s) spared (u, e, refl, refl))
