-- ===== src/Database/Assoc.antt =====
-- A database as an association list of texts, which shows that the interface can be met.
use rpi_nest_api.Prelude.{
  String, ◌≡◌, ◌≢◌, refl, Option, none, some, List, [], ◌∷◌, arith, ◌==◌, eq_iff, eq_refl, is_some,
  includes_text, if◌then◌else◌,
}
use rpi_nest_api.Database.{Database}

module _ {ℓ} {V : Type ℓ} where
  abbrev pub lookup : String → List (String × V) → Option V
  lookup k [] = none
  lookup k ((j, v) ∷ m) = if j == k then some v else lookup k m

  abbrev pub without : String → List (String × V) → List (String × V)
  without k [] = []
  without k ((j, v) ∷ m) = let rest = without k m in if j == k then rest else (j, v) ∷ rest

  abbrev pub keys : List (String × V) → List String
  keys [] = []
  keys ((j, _) ∷ m) = j ∷ keys m

  lookup-without :
      (k j : String) (m : List (String × V))
      → lookup j (without k m) ≡ (if k == j then none else lookup j m)
  lookup-without k j [] = ground arith
  lookup-without k j ((i, v) ∷ m) =
      ground (arith, lookup-without k j m, eq_iff i k, eq_iff i j, eq_iff k j)

  pub includes-keys :
      (k : String) (m : List (String × V)) → includes_text (keys m) k ≡ is_some (lookup k m)
  includes-keys k [] = refl
  includes-keys k ((j, v) ∷ m) = ground (arith, includes-keys k m)

module _ {V : Type 0} where
  pub put-other :
      (m : List (String × V)) (k j : String) (v : V)
      → j ≢ k
      → lookup j ((k, v) ∷ without k m) ≡ lookup j m
  put-other m k j v h = ground (arith, lookup-without k j m, eq_iff k j)

  pub put_self :
      (m : List (String × V)) (k : String) (v : V) → lookup k ((k, v) ∷ without k m) ≡ some v
  put_self m k v = ground (arith, eq_refl k)

  pub remove_self : (m : List (String × V)) (k : String) → lookup k (without k m) ≡ none
  remove_self m k = ground (arith, lookup-without k k m, eq_refl k)

  pub remove-other :
      (m : List (String × V)) (k j : String) → j ≢ k → lookup j (without k m) ≡ lookup j m
  remove-other m k j h = ground (arith, lookup-without k j m, eq_iff k j)

abbrev pub assoc : (V : Type 0) → Database (List (String × V)) String (λ _. V)
assoc V = record {
  get = λ m k. lookup k m;
  does_exist = λ m k. is_some (lookup k m);
  put = λ m k v. (k, v) ∷ without k m;
  remove = λ m k. without k m;
  get-put_self = put_self;
  get-put_other = put-other;
  get-remove_self = remove_self;
  get-remove_other = remove-other;
  does_exist_lem = λ m k. refl;
}
