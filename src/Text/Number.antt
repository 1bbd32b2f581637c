-- ===== src/Text/Number.antt =====
-- JavaScript's `parseInt` with base 10, and the search for a decimal number with a point.
use Prim.Native.Char.{Char, code}
use Prim.Native.String
use rpi_nest_api.Prelude.{
  ℕ, ◌+◌, ◌-◌, ◌*◌, ◌/◌, ◌%◌, ◌^◌, zero, suc, ltb, eqb, ◌&&◌, ◌||◌, String, Bool, true, false,
  Option, none, some, if◌then◌else◌,
}
use rpi_nest_api.Text.{is_code, between, trim_start}
pub mod Digits

abbrev pub is_digit : Char → Bool
is_digit c = between 48 57 c

abbrev pub digit : Char → ℕ
digit c = code c - 48

-- Whole numbers, as `Number.isInteger` accepts them.
pub data Integer : Type 0 where
  non_negative : ℕ → Integer
  negative : ℕ → Integer

-- The digits that follow, up to another character
unfoldable pub digits_from : ℕ → String → ℕ
digits_from n String.[] = n
digits_from n (String.◌∷◌ c s) =
    let rest = digits_from (n * 10 + digit c) s in if is_digit c then rest else n

abbrev pub parse_unsigned : String → Option ℕ
parse_unsigned String.[] = none
parse_unsigned (String.◌∷◌ c s) = if is_digit c then some (digits_from (digit c) s) else none

-- All whole numbers below this are numbers of JavaScript.
abbrev pub exact_bound : ℕ
exact_bound = 2 ^ 53

-- The multiple of the scale that is nearest to a number, of two the one whose factor is even; `none`
-- is Infinity.
abbrev pub nearest_multiple : ℕ → ℕ → Option ℕ
nearest_multiple scale n =
    let factor = n / scale in
    let twice = 2 * (n % scale) in
    let is_up = ltb scale twice || (eqb twice scale && eqb (factor % 2) 1) in
    let result = (if is_up then suc factor else factor) * scale in
    if ltb result (2 ^ 1024) then some result else none

-- The scale is doubled until 53 binary digits are enough for the factor.
abbrev pub nearest : ℕ → ℕ → ℕ → Option ℕ
nearest zero scale n = none
nearest (suc fuel) scale n = elim (ltb (n / scale) exact_bound) [
  | true ↦ nearest_multiple scale n
  | false ↦ nearest fuel (2 * scale) n
]

-- The number of JavaScript, a double, that is nearest to a whole number. The last bits of the
-- largest doubles are worth 2 ^ 971.
unfoldable pub to_number : ℕ → Option ℕ
to_number n = elim (ltb n exact_bound) [ true ↦ some n | false ↦ nearest 972 1 n ]

abbrev pub integer_of : (ℕ → Integer) → Option ℕ → Option Integer
integer_of f none = none
integer_of f (some n) = some (f n)

abbrev pub map_integer : (ℕ → Integer) → Option ℕ → Option Integer
map_integer f none = none
map_integer f (some n) = integer_of f (to_number n)

abbrev pub parse_signed : String → Option Integer
parse_signed String.[] = none
parse_signed (String.◌∷◌ c s) =
    if is_code 45 c
    then map_integer negative (parse_unsigned s)
    else if is_code 43 c
    then map_integer non_negative (parse_unsigned s)
    else map_integer non_negative (parse_unsigned (String.◌∷◌ c s))

-- `parseInt(s, 10)`, where `none` is NaN or Infinity, which `Number.isInteger` refuses alike
unfoldable pub parse_int : String → Option Integer
unfolding trim_start to_number
parse_int s = parse_signed (trim_start s)

-- The digits at the front of a text, and what follows them
unfoldable pub span_digits : String → String × String
span_digits String.[] = ("", "")
span_digits (String.◌∷◌ c s) =
    let (ds, rest) = span_digits s in
    if is_digit c then (String.◌∷◌ c ds, rest) else ("", String.◌∷◌ c s)

abbrev pub is_empty : String → Bool
is_empty String.[] = true
is_empty (String.◌∷◌ c s) = false

abbrev pub fraction_after : String → String → Option String
fraction_after whole String.[] = none
fraction_after whole (String.◌∷◌ c s) =
    let (ds, rest) = span_digits s in
    if is_code 46 c
    then if is_empty ds then none else some (String.◌++◌ whole (String.◌∷◌ c ds))
    else none

-- `\d+\.\d+` at the front of a text
abbrev pub decimal_at : String → Option String
decimal_at s =
    let (ds, rest) = span_digits s in if is_empty ds then none else fraction_after ds rest

abbrev pub or_later : Option String → Option String → Option String
or_later (some t) later = some t
or_later none later = later

-- `/(\d+\.\d+)/.exec(s)?.[0]`
unfoldable pub match_decimal : String → Option String
unfolding span_digits
match_decimal String.[] = none
match_decimal (String.◌∷◌ c s) =
    let later = match_decimal s in or_later (decimal_at (String.◌∷◌ c s)) later
