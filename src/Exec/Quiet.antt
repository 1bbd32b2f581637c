-- ===== src/Exec/Quiet.antt =====
-- Methods that leave the state as it is, whether they return or throw.
use rpi_nest_api.Prelude.{Bool, true, false, ◌≡◌, refl, ◌∙◌}
use rpi_nest_api.Exec.{
  Exception, Result, ok, err, Exec, continue, pure, throw, lift, throw_if, ◌>>=◌,
}

pub record Quiet {S A : Type 0} (m : Exec S A) : Type 0 where
  pub at : (s : S) → (m s).1 ≡ s

module _ {S A : Type 0} where
  pub Quiet-pure : (a : A) → Quiet {S = S} (pure a)
  Quiet-pure a = record { at = λ s. refl }

  pub Quiet-throw : (e : Exception) → Quiet {S = S} {A = A} (throw e)
  Quiet-throw e = record { at = λ s. refl }

  pub Quiet-lift : (r : Result A) → Quiet {S = S} (lift r)
  Quiet-lift r = record { at = λ s. refl }

pub Quiet-throw_if : {S : Type 0} (b : Bool) (e : Exception) → Quiet {S = S} (throw_if b e)
Quiet-throw_if true e = record { at = λ s. refl }
Quiet-throw_if false e = record { at = λ s. refl }

module _ {S A B : Type 0} where
  Quiet-continue :
      (r : Result A) (f : A → Exec S B) → ((a : A) → Quiet (f a)) → Quiet (λ s. continue r f s)
  Quiet-continue (ok a) f q = q a
  Quiet-continue (err e) f q = record { at = λ s. refl }

  pub Quiet-bind :
      (m : Exec S A) (f : A → Exec S B) → Quiet m → ((a : A) → Quiet (f a)) → Quiet (m >>= f)
  Quiet-bind m f q k = record { at = λ s. (Quiet-continue (m s).0 f k).at (m s).1 ∙ q.at s }
