-- ===== src/Exec/Gives.antt =====
-- Methods of which every result, where they return one, has a property.
use rpi_nest_api.Prelude.{◌≡◌, refl, subst}
use rpi_nest_api.Exec.{Result, ok, err, Exec, continue, pure, lift, ◌>>=◌}

pub record Gives {S A : Type 0} (P : A → Type 0) (m : Exec S A) : Type 0 where
  pub at : (s : S) (a : A) → (m s).0 ≡ ok a → P a

module _ {S A : Type 0} (P : A → Type 0) where
  pub Gives-pure : (a : A) → P a → Gives {S = S} P (pure a)
  Gives-pure a p = record { at = λ s b e. subst P (same e) p }
    where
      same : {a b : A} → Path (Result A) (ok a) (ok b) → a ≡ b
      same p = cc

module _ {S A B : Type 0} (P : B → Type 0) where
  Gives-continue :
      (r : Result A) (f : A → Exec S B)
      → ((a : A) → r ≡ ok a → Gives P (f a))
      → Gives P (λ s. continue r f s)
  Gives-continue (ok a) f g = g a refl
  Gives-continue (err e) f g = record { at = λ s b h. absurd (differ h) }
    where
      differ : {b : B} → Path (Result B) (err e) (ok b) → ⊥
      differ p = cc

  pub Gives-bind : (m : Exec S A) (f : A → Exec S B) → ((a : A) → Gives P (f a)) → Gives P (m >>= f)
  Gives-bind m f g = record { at = λ s. (Gives-continue (m s).0 f (λ a e. g a)).at (m s).1 }

  -- The first of two methods only has an answer.
  pub Gives-lift :
      (r : Result A) (f : A → Exec S B)
      → ((a : A) → r ≡ ok a → Gives P (f a))
      → Gives P (lift r >>= f)
  Gives-lift r f g = record { at = λ s. (Gives-continue r f g).at s }
