-- ===== src/Users/Listing.antt =====
-- `getAll` lists each stored user and nothing else.
use rpi_nest_api.Prelude.{
  Listed, here, later, String, ◌≡◌, refl, true, Option, none, some, List, [], ◌∷◌, map, arith, ap,
  ◌∙◌, ◌⊎◌, ◌==◌, eq_iff, includes_text, is_some, Bool-cases, inl, inr,
}
use rpi_nest_api.Exec.{ok}
use rpi_nest_api.Users.{UserData, UserStore, text_keys, filter_defined, get_all}

module _ {A : Type 0} where
  Listed-head :
      (o : Option A) (xs : List (Option A)) (u : A)
      → o ≡ some u
      → Listed u (filter_defined (o ∷ xs))
  Listed-head o xs u e = rw e here

  Listed-tail :
      (o : Option A) (xs : List (Option A)) (u : A)
      → Listed u (filter_defined xs)
      → Listed u (filter_defined (o ∷ xs))
  Listed-tail none xs u h = h
  Listed-tail (some x) xs u h = later h

  Listed-split :
      (o : Option A) (xs : List (Option A)) (u : A)
      → Listed u (filter_defined (o ∷ xs))
      → (o ≡ some u) ⊎ Listed u (filter_defined xs)
  Listed-split none xs u h = inr h
  Listed-split (some x) xs u here = inl refl
  Listed-split (some x) xs u (later h) = inr h

-- The values that are found under a list of keys.
module _ (m : String → Option UserData) where
  Listed-found :
      (ks : List String) (k : String) (u : UserData)
      → includes_text ks k ≡ true
      → m k ≡ some u
      → Listed u (filter_defined (map m ks))
  Listed-found [] k u h e = cc
  Listed-found (j ∷ ks) k u h e = elim (Bool-cases (j == k)) [
    | inl same ↦ Listed-head (m j) (map m ks) u (ap m ((eq_iff j k).0 same) ∙ e)
    | inr other ↦ Listed-tail (m j) (map m ks) u (Listed-found ks k u (ground arith) e)
  ]

  found-Listed :
      (ks : List String) (u : UserData)
      → Listed u (filter_defined (map m ks))
      → (k : String) × (m k ≡ some u)
  found-Listed [] u h = elim h [ ]
  found-Listed (j ∷ ks) u h = elim (Listed-split (m j) (map m ks) u h) [
    | inl e ↦ (j, e)
    | inr rest ↦ found-Listed ks u rest
  ]

module _ {St : Type 0} (db : UserStore St) (s : St) where
  get_all-eq :
      (get_all db s) ≡ (ok (filter_defined (map (db.get s) (text_keys (db.get_keys s)))), s)
  unfolding get_all
  get_all-eq = rw (db.get_many_lem s (text_keys (db.get_keys s)))

  -- `getAll` leaves the store alone and lists exactly the users that stand under some login.
  pub get_all_lem :
      (us : List UserData) × (get_all db s ≡ (ok us, s))
      × ((k : String) (u : UserData) → db.get s k ≡ some u → Listed u us)
      × ((u : UserData) → Listed u us → (k : String) × (db.get s k ≡ some u))
  get_all_lem =
      let ks = text_keys (db.get_keys s) in
      (
        filter_defined (map (db.get s) ks),
        get_all-eq,
        λ k u e. Listed-found (db.get s) ks k u (stored k u e) e,
        found-Listed (db.get s) ks,
      )
    where
      stored :
          (k : String) (u : UserData)
          → db.get s k ≡ some u
          → includes_text (text_keys (db.get_keys s)) k ≡ true
      stored k u e = db.get_keys_lem s k ∙ db.database.does_exist_lem s k ∙ ap is_some e
