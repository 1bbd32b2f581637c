-- ===== src/Text/Split.antt =====
-- Splitting a text at a separator.
use Prim.Native.Char.{Char}
use Prim.Native.String
use text.Mathlib.TextLemmas.{nil-append, cons-append}
use rpi_nest_api.Prelude.{
  List, last, Bool-cases, inl, inr, ap, sym, ℕ, String, true, false, ◌≡◌, refl, [], ◌∷◌,
}
use rpi_nest_api.Text.{is_code, split}

-- No character of the text has the code.
abbrev pub Lacks : ℕ → String → Type 0
Lacks k String.[] = Unit
Lacks k (String.◌∷◌ c s) = (is_code k c ≡ false) × Lacks k s

pub Lacks-append : (k : ℕ) (s t : String) → Lacks k s → Lacks k t → Lacks k (String.◌++◌ s t)
Lacks-append k String.[] t h g = rw (nil-append t) g
Lacks-append k (String.◌∷◌ c s) t (h, hs) g = rw (cons-append c s t) (h, Lacks-append k s t hs g)

pub split_whole : (k : ℕ) (s : String) → Lacks k s → split k s ≡ s ∷ []
unfolding split
split_whole k String.[] h = refl
split_whole k (String.◌∷◌ c s) (h, hs) = rw (h, split_whole k s hs)

-- A text before the first separator is the first part.
pub split-append :
    (k : ℕ) (s : String) (c : Char) (t : String)
    → Lacks k s
    → is_code k c ≡ true
    → split k (String.◌++◌ s (String.◌∷◌ c t)) ≡ s ∷ split k t
unfolding split
split-append k String.[] c t h e = rw (nil-append (String.◌∷◌ c t), e)
split-append k (String.◌∷◌ d s) c t (h, hs) e =
    rw (cons-append d s (String.◌∷◌ c t), h, split-append k s c t hs e)

-- There is always a first part.
pub split-cons : (k : ℕ) (s : String) → (t : String) × (ts : List String) × (split k s ≡ t ∷ ts)
unfolding split
split-cons k String.[] = ("", [], refl)
split-cons k (String.◌∷◌ c s) =
    let (t, ts, e) = split-cons k s in
    elim (Bool-cases (is_code k c)) [
      | inl h ↦ ("", split k s, rw h)
      | inr h ↦ (String.◌∷◌ c t, ts, rw (h, e))
    ]

split-two :
    (k : ℕ) (s : String) (c : Char) (t : String)
    → is_code k c ≡ true
    → (x y : String) × (ys : List String) × (split k (String.◌++◌ s (String.◌∷◌ c t)) ≡ x ∷ y ∷ ys)
      × (last (y ∷ ys) ≡ last (split k t))
unfolding split
split-two k String.[] c t h =
    let (y, ys, e) = split-cons k t in
    ("", y, ys, rw (nil-append (String.◌∷◌ c t), h, e), ap last (sym e))
split-two k (String.◌∷◌ d s) c t h =
    let (x, y, ys, e, l) = split-two k s c t h in
    elim (Bool-cases (is_code k d)) [
      | inl p ↦ ("", x, y ∷ ys, rw (cons-append d s (String.◌∷◌ c t), p, e), l)
      | inr p ↦ (String.◌∷◌ d x, y, ys, rw (cons-append d s (String.◌∷◌ c t), p, e), l)
    ]

-- What stands before a separator does not change the last part.
pub last-split-append :
    (k : ℕ) (s : String) (c : Char) (t : String)
    → is_code k c ≡ true
    → last (split k (String.◌++◌ s (String.◌∷◌ c t))) ≡ last (split k t)
last-split-append k s c t h = let (x, y, ys, e, l) = split-two k s c t h in rw e l
