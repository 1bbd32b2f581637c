-- ===== src/Text.antt =====
-- JavaScript's operations on strings that the program calls: `trim`, `split` at one character,
-- `join`, `replaceAll` with the empty string.
use Prim.Native.Nat.{compare, Ordering}
use Prim.Native.Char.{Char, code}
use Prim.Native.String
use rpi_nest_api.Prelude.{
  ℕ, String, Bool, true, false, ◌&&◌, ◌||◌, Option, none, some, List, [], ◌∷◌, leb, if◌then◌else◌,
}
pub mod Split
pub mod Number

abbrev pub is_code : ℕ → Char → Bool
is_code k c = elim (compare (code c) k) [ Ordering.eq ↦ true | _ ↦ false ]

abbrev pub between : ℕ → ℕ → Char → Bool
between lo hi c = leb lo (code c) && leb (code c) hi

-- White space and line terminators of ECMAScript.
unfoldable pub is_space : Char → Bool
is_space c =
    between 9 13 c
    || is_code 0x20 c
    || is_code 0xa0 c
    || is_code 0x1680 c
    || between 0x2000 0x200a c
    || between 0x2028 0x2029 c
    || is_code 0x202f c
    || is_code 0x205f c
    || is_code 0x3000 c
    || is_code 0xfeff c

unfoldable pub trim_start : String → String
trim_start String.[] = ""
trim_start (String.◌∷◌ c s) = if is_space c then trim_start s else String.◌∷◌ c s

-- White space before an empty rest is dropped.
abbrev pub keep : Char → String → String
keep c String.[] = if is_space c then "" else String.◌∷◌ c ""
keep c (String.◌∷◌ d s) = String.◌∷◌ c (String.◌∷◌ d s)

unfoldable pub trim_end : String → String
trim_end String.[] = ""
trim_end (String.◌∷◌ c s) = keep c (trim_end s)

unfoldable pub trim : String → String
unfolding trim_start trim_end is_space
trim s = trim_end (trim_start s)

abbrev pub push_front : Char → List String → List String
push_front c [] = String.◌∷◌ c "" ∷ []
push_front c (t ∷ ts) = String.◌∷◌ c t ∷ ts

-- `s.split(sep)`, where `sep` is the code of one character
unfoldable pub split : ℕ → String → List String
split sep String.[] = "" ∷ []
split sep (String.◌∷◌ c s) = if is_code sep c then "" ∷ split sep s else push_front c (split sep s)

-- `ts.join(sep)`
unfoldable pub join : String → List String → String
join sep [] = ""
join sep (t ∷ []) = t
join sep (t ∷ u ∷ ts) = String.◌++◌ t (String.◌++◌ sep (join sep (u ∷ ts)))

-- `s.replaceAll(c, '')`, where `k` is the code of the character `c`
unfoldable pub without_char : ℕ → String → String
without_char k String.[] = ""
without_char k (String.◌∷◌ c s) =
    if is_code k c then without_char k s else String.◌∷◌ c (without_char k s)

-- `s.startsWith(prefix)`
unfoldable pub starts_with : String → String → Bool
starts_with String.[] s = true
starts_with (String.◌∷◌ c cs) String.[] = false
starts_with (String.◌∷◌ c cs) (String.◌∷◌ d s) = is_code (code c) d && starts_with cs s

-- The text without as many characters as another one has.
unfoldable pub drop_as : String → String → String
drop_as String.[] s = s
drop_as (String.◌∷◌ c cs) String.[] = ""
drop_as (String.◌∷◌ c cs) (String.◌∷◌ d s) = drop_as cs s

-- What follows the first place where a separator stands.
unfoldable pub after : String → String → Option String
after sep String.[] = none
after sep (String.◌∷◌ c s) =
    let rest = after sep s in
    if starts_with sep (String.◌∷◌ c s) then some (drop_as sep (String.◌∷◌ c s)) else rest

-- What stands before the first place where a separator stands.
unfoldable pub before : String → String → String
before sep String.[] = ""
before sep (String.◌∷◌ c s) =
    let rest = before sep s in if starts_with sep (String.◌∷◌ c s) then "" else String.◌∷◌ c rest

abbrev before_next : String → Option String → Option String
before_next sep none = none
before_next sep (some s) = some (before sep s)

-- `s.split(sep)[1]` for a separator that is not empty
unfoldable pub second_part : String → String → Option String
unfolding after
second_part sep s = before_next sep (after sep s)
