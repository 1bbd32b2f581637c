-- ===== src/Users/Directory.antt =====
-- The repository as a directory: a partial map from logins to users.
use rpi_nest_api.Prelude.{
  ◌≢◌, ◌∙◌, String, ◌≡◌, refl, ap, Option, none, some, List, [], ◌∷◌, arith, ◌==◌, eq_iff, eq_refl,
  subst, inl, inr, Bool-cases, Option-cases, fun_ext, if◌then◌else◌,
}
use rpi_nest_api.Exec.{Void, Result, ok, err, error}
use rpi_nest_api.Users.{
  UserData, UserStore, new_user, merge, Call, create_call, update_call, remove_call, perform,
  perform_all,
}

-- What the repository promises, with no database.
abbrev pub Directory : Type 0
Directory = String → Option UserData

abbrev pub bind_entry : String → Option UserData → Directory → Directory
bind_entry k u m = λ j. if k == j then u else m j

abbrev pub add_entry : String → UserData → Option UserData → Directory → Result Void × Directory
add_entry k u none m = (ok tt, bind_entry k (some u) m)
add_entry k u (some _) m = (err (error "User already exists"), m)

abbrev pub change_entry :
    String → (UserData → UserData) → Option UserData → Directory → Result Void × Directory
change_entry k f none m = (err (error "Could not update unknown user"), m)
change_entry k f (some u) m = (ok tt, bind_entry k (some (f u)) m)

abbrev pub drop_entry : String → Option UserData → Directory → Result Void × Directory
drop_entry k none m = (err (error "Could not remove unknown user"), m)
drop_entry k (some _) m = (ok tt, bind_entry k none m)

unfoldable pub specified : Call → Directory → Result Void × Directory
specified (create_call now k c) m = add_entry k (new_user now k c) (m k) m
specified (update_call now k c) m = change_entry k (λ u. merge now u c) (m k) m
specified (remove_call now k) m = drop_entry k (m k) m

unfoldable pub specified_all : List Call → Directory → List (Result Void) × Directory
unfolding specified
specified_all [] m = ([], m)
specified_all (c ∷ cs) m =
    let (r, m') = specified c m in let (rs, m'') = specified_all cs m' in (r ∷ rs, m'')

-- The login that a call is about.
abbrev pub login_of : Call → String
login_of (create_call _ k _) = k
login_of (update_call _ k _) = k
login_of (remove_call _ k) = k

specified-other :
    (c : Call) (m : Directory) (j : String) → j ≢ login_of c → (specified c m).1 j ≡ m j
unfolding specified
specified-other (create_call now k c) m j h = ground (arith, eq_iff k j)
specified-other (update_call now k c) m j h = ground (arith, eq_iff k j)
specified-other (remove_call now k) m j h = ground (arith, eq_iff k j)

module _ {St : Type 0} (db : UserStore St) where
  -- The directory that a store holds.
  abbrev pub view : St → Directory
  view s = λ k. db.get s k

  pub view-put :
      (s : St) (k j : String) (u : UserData)
      → db.get (db.put s k u) j ≡ (if k == j then some u else db.get s j)
  view-put s k j u = elim (Bool-cases (k == j)) [
    | inl same ↦ rw same (
        subst (λ i. db.get (db.put s k u) i ≡ some u) ((eq_iff k j).0 same) (db.get-put_self s k u))
    | inr other ↦ rw other (db.get-put_other s k j u (λ e. cc (ap (λ i. k == i) e, eq_refl k)))
  ]

  pub view-remove :
      (s : St) (k j : String) → db.get (db.remove s k) j ≡ (if k == j then none else db.get s j)
  view-remove s k j = elim (Bool-cases (k == j)) [
    | inl same ↦ rw same (
        subst (λ i. db.get (db.remove s k) i ≡ none) ((eq_iff k j).0 same) (db.get-remove_self s k))
    | inr other ↦ rw other (db.get-remove_other s k j (λ e. cc (ap (λ i. k == i) e, eq_refl k)))
  ]

  view-put_entry :
      (s : St) (k : String) (u : UserData) → view (db.put s k u) ≡ bind_entry k (some u) (view s)
  view-put_entry s k u = fun_ext (λ j. view-put s k j u)

  view-remove_entry : (s : St) (k : String) → view (db.remove s k) ≡ bind_entry k none (view s)
  view-remove_entry s k = fun_ext (λ j. view-remove s k j)

  pub perform-eq-specified :
      (c : Call) (s : St)
      → ((perform db c s).0 ≡ (specified c (view s)).0)
        × (view (perform db c s).1 ≡ (specified c (view s)).1)
  unfolding perform specified
  perform-eq-specified (create_call now k c) s =
      ground (arith, db.does_exist_lem s k, view-put_entry s k (new_user now k c))
  perform-eq-specified (update_call now k c) s = elim (Option-cases (db.get s k)) [
    | inl e ↦ rw e (refl, refl)
    | inr (u, e) ↦ rw e (refl, view-put_entry s k (merge now u c))
  ]
  perform-eq-specified (remove_call now k) s =
      ground (arith, db.does_exist_lem s k, view-remove_entry s k)

  -- The repository refines the directory: a sequence of calls gives the results that the directory
  -- promises, and leaves a store that holds the directory that it promises.
  pub perform_all-eq-specified_all :
      (cs : List Call) (s : St)
      → ((perform_all db cs s).0 ≡ (specified_all cs (view s)).0)
        × (view (perform_all db cs s).1 ≡ (specified_all cs (view s)).1)
  unfolding perform_all specified_all
  perform_all-eq-specified_all [] s = (refl, refl)
  perform_all-eq-specified_all (c ∷ cs) s =
      let (here, next) = perform-eq-specified c s in
      let (results, final) = perform_all-eq-specified_all cs (perform db c s).1 in
      rw (← next) (cc, final)

  -- A call changes no user but the one that it names.
  pub perform-other :
      (c : Call) (s : St) (j : String) → j ≢ login_of c → db.get (perform db c s).1 j ≡ db.get s j
  perform-other c s j h =
      ap (λ (m : Directory). m j) (perform-eq-specified c s).1 ∙ specified-other c (view s) j h
