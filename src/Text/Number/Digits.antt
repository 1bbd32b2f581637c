-- ===== src/Text/Number/Digits.antt =====
-- What `parseInt` makes of a text of digits.
use Prim.Native.Char.{Char}
use rpi_nest_api.Prelude.{◌<◌, ltb, some, refl, ℕ, ◌+◌, ◌*◌, String, true, false, ◌≡◌, arith}
use rpi_nest_api.Text.{trim_start, is_space, is_code}
use rpi_nest_api.Text.Split.{Lacks}
use rpi_nest_api.Text.Number.{
  is_empty, exact_bound, to_number, parse_int, non_negative, is_digit, digit, digits_from,
}

abbrev pub AreDigits : String → Type 0
AreDigits String.[] = Unit
AreDigits (String.◌∷◌ c s) = (is_digit c ≡ true) × AreDigits s

-- Ten to the number of characters, and the value of a text of digits by their places
abbrev pub place : String → ℕ
place String.[] = 1
place (String.◌∷◌ c s) = 10 * place s

abbrev pub value : String → ℕ
value String.[] = 0
value (String.◌∷◌ c s) = digit c * place s + value s

digits_from-value : (n : ℕ) (s : String) → AreDigits s → digits_from n s ≡ n * place s + value s
unfolding digits_from
digits_from-value n String.[] h = omega arith
digits_from-value n (String.◌∷◌ c s) (h, hs) =
    rw (h, digits_from-value (n * 10 + digit c) s hs) (omega arith)

digit_no_space : (c : Char) → is_digit c ≡ true → is_space c ≡ false
unfolding is_space
digit_no_space c h = ground arith

digit_no_sign : (c : Char) → is_digit c ≡ true → (is_code 45 c ≡ false) × (is_code 43 c ≡ false)
digit_no_sign c h = ground arith

ltb-true : (m n : ℕ) → m < n → ltb m n ≡ true
ltb-true m n h = ground arith

to_number-exact : (n : ℕ) → n < exact_bound → to_number n ≡ some n
unfolding to_number
to_number-exact n h = rw (ltb-true n exact_bound h, to_number) refl

pub parse_int-value :
    (s : String)
    → AreDigits s
    → is_empty s ≡ false
    → value s < exact_bound
    → parse_int s ≡ some (non_negative (value s))
unfolding parse_int trim_start
parse_int-value String.[] h e l = cc
parse_int-value (String.◌∷◌ c s) (h, hs) e l =
    let (minus, plus) = digit_no_sign c h in
    rw
      (
        digit_no_space c h,
        minus,
        plus,
        h,
        digits_from-value (digit c) s hs,
        to_number-exact (digit c * place s + value s) l,
      )
      refl

-- A text of digits has no character whose code is below those of the digits.
pub digits-Lacks : (k : ℕ) (s : String) → k < 48 → AreDigits s → Lacks k s
digits-Lacks k String.[] l h = tt
digits-Lacks k (String.◌∷◌ c s) l (h, hs) = (ground arith, digits-Lacks k s l hs)
