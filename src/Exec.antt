-- ===== src/Exec.antt =====
-- Asynchronous methods that read and write a store and may throw. What was written before a throw
-- stays written, so the store comes back beside an exception too.
pub mod Gives
pub mod Quiet
pub mod Success
use rpi_nest_api.Prelude.{◌≡◌, refl, ◌⊎◌, inl, inr, String, Bool, true, false}

-- The exceptions of @nestjs/common that the program throws, a plain `Error`, and a promise
-- that is rejected with a text.
pub data Exception : Type 0 where
  unauthorized : Exception
  forbidden : String → Exception
  bad_request : String → Exception
  conflict : String → Exception
  not_found : String → Exception
  internal_server_error : String → Exception
  error : String → Exception
  rejection : String → Exception

pub data Result {ℓ} (A : Type ℓ) : Type ℓ where
  ok : A → Result A
  err : Exception → Result A

pub Result-cases {ℓ} :
    {A : Type ℓ} (r : Result A) → ((a : A) × (r ≡ ok a)) ⊎ ((e : Exception) × (r ≡ err e))
Result-cases (ok a) = inl (a, refl)
Result-cases (err e) = inr (e, refl)

abbrev pub Exec {ℓ} : Type ℓ → Type ℓ → Type ℓ
Exec S A = S → Result A × S

module _ {ℓ} {S A : Type ℓ} where
  abbrev pub pure : A → Exec S A
  pure a s = (ok a, s)

  abbrev pub throw : Exception → Exec S A
  throw e s = (err e, s)

  abbrev pub lift : Result A → Exec S A
  lift r s = (r, s)

  abbrev pub gets : (S → A) → Exec S A
  gets f s = (ok (f s), s)

module _ {ℓ} {S A B : Type ℓ} where
  abbrev pub continue : Result A → (A → Exec S B) → Exec S B
  continue (ok a) f s = f a s
  continue (err e) f s = (err e, s)

  infixl 10 ◌>>=◌ ◌>>◌
  abbrev pub ◌>>=◌ : Exec S A → (A → Exec S B) → Exec S B
  ◌>>=◌ m f s = continue (m s).0 f (m s).1

  abbrev pub ◌>>◌ : Exec S A → Exec S B → Exec S B
  m >> n = m >>= λ _. n

-- `void`
abbrev pub Void : Type 0
Void = Unit

abbrev pub modify : {S : Type 0} → (S → S) → Exec S Void
modify f s = (ok tt, f s)

-- `if (b) throw e`
abbrev pub throw_if : {S : Type 0} → Bool → Exception → Exec S Void
throw_if true e s = (err e, s)
throw_if false e s = (ok tt, s)
