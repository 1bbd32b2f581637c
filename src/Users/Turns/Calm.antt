-- ===== src/Users/Turns/Calm.antt =====
-- Calls of which no two are under way for one login give what they would give one after another.
use rpi_nest_api.Prelude.{
  ℕ, zero, suc, String, ◌≡◌, ◌≢◌, refl, sym, ap, ◌∙◌, Option, none, some, List, [], ◌∷◌, All, arith,
  eq_iff, fun_ext, subst, Option-cases, inl, inr,
}
use rpi_nest_api.Exec.{Void, Result, ok, err}
use rpi_nest_api.Users.{
  UserData, UserStore, Call, create_call, update_call, remove_call, perform_all,
}
use rpi_nest_api.Users.Directory.{
  Directory, bind_entry, specified, specified_all, login_of, view, view-put, view-remove,
  perform_all-eq-specified_all,
}
use rpi_nest_api.Users.Turns.{
  Write, System, Move, ask, land, calls_of, write_at, without, begin, write, begun, landed, run,
  quiet,
}

-- No write for the login is under way.
abbrev pub IsFree : String → List Write → Type 0
IsFree k ws = All (λ w. w.login ≢ k) ws

-- No two writes are for one login.
abbrev AreApart : List Write → Type 0
AreApart [] = Unit
AreApart (w ∷ ws) = IsFree w.login ws × AreApart ws

-- The directory when all writes have landed.
abbrev expected : List Write → Directory → Directory
expected [] m = m
expected (w ∷ ws) m = bind_entry w.login w.value (expected ws m)

expected-IsFree :
    (k : String) (ws : List Write) (m : Directory) → IsFree k ws → expected ws m k ≡ m k
expected-IsFree k [] m h = refl
expected-IsFree k (w ∷ ws) m (h, hs) = ground (arith, eq_iff w.login k, expected-IsFree k ws m hs)

some-injective : {x w : Write} → some x ≡ some w → x ≡ w
some-injective e = cc

IsFree-without : (k : String) (n : ℕ) (ws : List Write) → IsFree k ws → IsFree k (without n ws)
IsFree-without k n [] h = tt
IsFree-without k zero (w ∷ ws) (h, hs) = hs
IsFree-without k (suc n) (w ∷ ws) (h, hs) = (h, IsFree-without k n ws hs)

AreApart-without : (n : ℕ) (ws : List Write) → AreApart ws → AreApart (without n ws)
AreApart-without n [] h = tt
AreApart-without zero (w ∷ ws) (h, hs) = hs
AreApart-without (suc n) (w ∷ ws) (h, hs) =
    (IsFree-without w.login n ws h, AreApart-without n ws hs)

IsFree-at :
    (k : String) (n : ℕ) (ws : List Write) (w : Write)
    → write_at n ws ≡ some w
    → IsFree k ws
    → w.login ≢ k
IsFree-at k n [] w e h = cc
IsFree-at k zero (x ∷ ws) w e (h, hs) = λ q. h (cc)
IsFree-at k (suc n) (x ∷ ws) w e (h, hs) = IsFree-at k n ws w e hs

expected-bind_entry :
    (k : String) (v : Option UserData) (ws : List Write) (m : Directory) (j : String)
    → IsFree k ws
    → expected ws (bind_entry k v m) j ≡ bind_entry k v (expected ws m) j
expected-bind_entry k v [] m j h = refl
expected-bind_entry k v (w ∷ ws) m j (h, hs) =
    ground (arith, eq_iff w.login j, eq_iff k j, expected-bind_entry k v ws m j hs)

-- A write that lands out of the order of the calls changes nothing of what is expected.
expected-without :
    (n : ℕ) (ws : List Write) (w : Write) (m : Directory) (j : String)
    → AreApart ws
    → write_at n ws ≡ some w
    → expected (without n ws) (bind_entry w.login w.value m) j ≡ expected ws m j
expected-without n [] w m j a e = cc
expected-without zero (x ∷ ws) w m j (free, a) e =
    subst (λ y. expected ws (bind_entry y.login y.value m) j ≡ expected (x ∷ ws) m j)
      (some-injective e) (expected-bind_entry x.login x.value ws m j free)
expected-without (suc n) (x ∷ ws) w m j (free, a) e =
    ground (arith, expected-without n ws w m j a e)

module _ {U : Type 0} (db : UserStore U) where
  view-write :
      (k : String) (v : Option UserData) (s : U)
      → view db (write db k v s) ≡ bind_entry k v (view db s)
  view-write k none s = fun_ext (λ j. view-remove db s k j)
  view-write k (some u) s = fun_ext (λ j. view-put db s k j u)

  abbrev outcome : String → Result (Option UserData) → Directory → Result Void × Directory
  outcome k (ok v) m = (ok tt, bind_entry k v m)
  outcome k (err e) m = (err e, m)

  begin-specified :
      (c : Call) (s : U) (m : Directory)
      → m (login_of c) ≡ db.get s (login_of c)
      → specified c m ≡ outcome (login_of c) (begin db c s) m
  unfolding specified begin
  begin-specified (create_call now k c) s m e = elim (Option-cases (db.get s k)) [
    | inl n ↦ rw (e, db.does_exist_lem s k, n) refl
    | inr (u, n) ↦ rw (e, db.does_exist_lem s k, n) refl
  ]
  begin-specified (update_call now k c) s m e = elim (Option-cases (db.get s k)) [
    | inl n ↦ rw (e, n) refl
    | inr (u, n) ↦ rw (e, n) refl
  ]
  begin-specified (remove_call now k) s m e = elim (Option-cases (db.get s k)) [
    | inl n ↦ rw (e, db.does_exist_lem s k, n) refl
    | inr (u, n) ↦ rw (e, db.does_exist_lem s k, n) refl
  ]

  -- When a call comes in, no write for its login is under way.
  abbrev pub IsCalm : List Move → System U → Type 0
  IsCalm [] s = Unit
  IsCalm (ask c ∷ ms) s =
      IsFree (login_of c) s.writes × IsCalm ms (begun db c (begin db c s.store) s).1
  IsCalm (land n ∷ ms) s = IsCalm ms (landed db n (write_at n s.writes) s)

  abbrev all_expected : System U → Directory
  all_expected s = expected s.writes (view db s.store)

  begun-expected :
      (c : Call) (r : Result (Option UserData)) (s : System U)
      → IsFree (login_of c) s.writes
      → AreApart s.writes
      → AreApart (begun db c r s).1.writes
        × (((begun db c r s).0, all_expected (begun db c r s).1)
            ≡ outcome (login_of c) r (all_expected s))
  begun-expected c (ok v) s free apart = ((free, apart), refl)
  begun-expected c (err e) s free apart = (apart, refl)

  landed-expected :
      (n : ℕ) (o : Option Write) (s : System U)
      → write_at n s.writes ≡ o
      → AreApart s.writes
      → AreApart (landed db n o s).writes × (all_expected (landed db n o s) ≡ all_expected s)
  landed-expected n none s e apart = (apart, refl)
  landed-expected n (some w) s e apart = (
    AreApart-without n s.writes apart,
    ap (expected (without n s.writes)) (view-write w.login w.value s.store)
        ∙ fun_ext (λ j. expected-without n s.writes w (view db s.store) j apart e),
  )

  abbrev Follows : List (Result Void) × System U → List (Result Void) × Directory → Type 0
  Follows (rs, s) (qs, m) = (rs ≡ qs) × (all_expected s ≡ m)

  run-Follows :
      (ms : List Move) (s : System U)
      → AreApart s.writes
      → IsCalm ms s
      → Follows (run db ms s) (specified_all (calls_of ms) (all_expected s))
  unfolding run specified_all
  run-Follows [] s apart calm = (refl, refl)
  run-Follows (ask c ∷ ms) s apart (free, calm) =
      let (next, step) = begun-expected c (begin db c s.store) s free apart in
      let same =
        step
        ∙ sym (
            begin-specified c s.store (all_expected s)
              (expected-IsFree (login_of c) s.writes (view db s.store) free)) in
      let (results, final) = run-Follows ms (begun db c (begin db c s.store) s).1 next calm in
      let moved = ap (λ (p : Result Void × Directory). specified_all (calls_of ms) p.1) same in
      (
        cc (
          ap (λ (p : Result Void × Directory). p.0) same,
          results,
          ap (λ (q : List (Result Void) × Directory). q.0) moved,
        ),
        final ∙ ap (λ (q : List (Result Void) × Directory). q.1) moved,
      )
  run-Follows (land n ∷ ms) s apart calm =
      let (next, same) = landed-expected n (write_at n s.writes) s refl apart in
      rw (← same) (run-Follows ms (landed db n (write_at n s.writes) s) next calm)

  -- Whatever calls come in, and whenever and in whatever order their writes land: if no call comes in
  -- while a write for its login is under way, and all writes have landed at the end, then the calls
  -- are answered as if each of them had waited for the one before it, and the same users are stored.
  pub run-eq-perform_all :
      (ms : List Move) (s : U)
      → IsCalm ms (quiet s)
      → (run db ms (quiet s)).1.writes ≡ []
      → ((run db ms (quiet s)).0 ≡ (perform_all db (calls_of ms) s).0)
        × ((k : String)
            → db.get (run db ms (quiet s)).1.store k ≡ db.get (perform_all db (calls_of ms) s).1 k)
  run-eq-perform_all ms s calm landed_all =
      let (results, final) = run-Follows ms (quiet s) tt calm in
      let (specified_results, stored) = perform_all-eq-specified_all db (calls_of ms) s in
      (
        results ∙ sym specified_results,
        λ k. ap (λ (m : Directory). m k) (rw landed_all at final ∙ sym stored),
      )
