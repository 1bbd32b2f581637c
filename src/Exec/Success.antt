-- ===== src/Exec/Success.antt =====
-- Where a sequence of two methods succeeds, both do.
use rpi_nest_api.Prelude.{◌≡◌, sym, ap, ◌∙◌, inl, inr, Bool, true, false, refl}
use rpi_nest_api.Exec.{
  Exception, Result, ok, err, Result-cases, Exec, continue, ◌>>=◌, Void, throw_if,
}

module _ {S B : Type 0} where
  err-ok : (e : Exception) (b : B) (s t : S) → Path (Result B × S) (err e, s) (ok b, t) → ⊥
  err-ok e b s t h = differ (ap (λ q. q.0) h)
    where
      differ : Path (Result B) (err e) (ok b) → ⊥
      differ p = cc

pub throw_if_success :
    {S : Type 0} (b : Bool) (e : Exception) (s t : S) (u : Void)
    → throw_if b e s ≡ (ok u, t)
    → (b ≡ false) × (s ≡ t)
throw_if_success true e s t u h = absurd (err-ok e u s t h)
throw_if_success false e s t u h = (refl, ap (λ q. q.1) h)

module _ {S A : Type 0} where
  pub ok-inj : {a b : A} {s t : S} → Path (Result A × S) (ok a, s) (ok b, t) → (a ≡ b) × (s ≡ t)
  ok-inj {a} {b} h = (same (ap (λ q. q.0) h), ap (λ q. q.1) h)
    where
      same : {a b : A} → Path (Result A) (ok a) (ok b) → a ≡ b
      same p = cc

module _ {S A B : Type 0} where
  bind_first :
      (m : Exec S A) (f : A → Exec S B) (s : S) (r : Result A)
      → (m s).0 ≡ r
      → (m >>= f) s ≡ continue r f (m s).1
  bind_first m f s r h = ap (λ x. continue x f (m s).1) h

  pub bind_success :
      (m : Exec S A) (f : A → Exec S B) (s t : S) (b : B)
      → (m >>= f) s ≡ (ok b, t)
      → (a : A) × (u : S) × (m s ≡ (ok a, u)) × (f a u ≡ (ok b, t))
  bind_success m f s t b h = elim (Result-cases (m s).0) [
    | inr (e, p) ↦ absurd (err-ok e b (m s).1 t (sym (bind_first m f s (err e) p) ∙ h))
    | inl (a, p) ↦ (a, (m s).1, ap (λ r. (r, (m s).1)) p, sym (bind_first m f s (ok a) p) ∙ h)
  ]
