-- ===== src/Network/Requests/Places.antt =====
-- Lists that grow at their end, and what holds of all that stands in them.
use rpi_nest_api.Prelude.{◌≡◌, ◌⊎◌, inl, inr, refl, List, [], ◌∷◌, ◌++◌, All}

module _ {ℓ} {A : Type ℓ} where
  -- The places of an element in a list that ends with one.
  pub append-cases :
      (xs us vs : List A) (x a : A)
      → xs ++ x ∷ [] ≡ us ++ a ∷ vs
      → ((us ≡ xs) × (a ≡ x)) ⊎ ((cs : List A) × (xs ≡ us ++ a ∷ cs))
  append-cases [] [] vs x a e = inl (refl, cc)
  append-cases [] (y ∷ []) vs x a e = cc
  append-cases [] (y ∷ z ∷ us) vs x a e = cc
  append-cases (y ∷ xs) [] vs x a e = inr (xs, cc)
  append-cases (y ∷ xs) (z ∷ us) vs x a e = elim (append-cases xs us vs x a (cc)) [
    | inl (p, q) ↦ inl (cc, q)
    | inr (cs, p) ↦ inr (cs, cc)
  ]

  pub All-append : (P : A → Type ℓ) (xs : List A) (x : A) → All P xs → P x → All P (xs ++ x ∷ [])
  All-append P [] x all p = (p, tt)
  All-append P (y ∷ xs) x all p = (all.0, All-append P xs x all.1 p)

  pub All-map : (P Q : A → Type ℓ) (xs : List A) → ((x : A) → P x → Q x) → All P xs → All Q xs
  All-map P Q [] f all = tt
  All-map P Q (x ∷ xs) f all = (f x all.0, All-map P Q xs f all.1)

  pub All-middle : (P : A → Type ℓ) (xs ys : List A) (x : A) → All P (xs ++ x ∷ ys) → P x
  All-middle P [] ys x all = all.0
  All-middle P (z ∷ xs) ys x all = All-middle P xs ys x all.1

  pub nil-ne : (xs ys : List A) (x : A) → [] ≡ xs ++ x ∷ ys → ⊥
  nil-ne [] ys x e = cc
  nil-ne (z ∷ xs) ys x e = cc

  -- One element of a list is replaced.
  pub All-replace :
      (P Q : A → Type ℓ) (xs ys : List A) (x y : A)
      → ((z : A) → P z → Q z)
      → (P x → Q y)
      → All P (xs ++ x ∷ ys)
      → All Q (xs ++ y ∷ ys)
  All-replace P Q [] ys x y f g all = (g all.0, All-map P Q ys f all.1)
  All-replace P Q (z ∷ xs) ys x y f g all = (f z all.0, All-replace P Q xs ys x y f g all.1)
