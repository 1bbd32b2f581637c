-- ===== src/Json.antt =====
-- The values that a client sends as JSON, as Express parses the body of a request. An absent
-- property is read as `undefined`.
use rpi_nest_api.Prelude.{ℕ, String, Bool, true, false, ◌==◌, if◌then◌else◌, leb, ltb}

-- `negsuc n` is -(n + 1).
pub data ℤ : Type 0 where
  pos : ℕ → ℤ
  negsuc : ℕ → ℤ

-- A number, as far as whole bounds tell numbers apart: a whole one, or one strictly between a whole
-- number and the next.
pub data Number : Type 0 where
  whole : ℤ → Number
  between : ℤ → Number

mutual
  pub data Json : Type 0 where
    undefined : Json
    null : Json
    boolean : Bool → Json
    number : Number → Json
    text : String → Json
    array : Items → Json
    object : Fields → Json

  pub data Items : Type 0 where
    nil : Items
    item : Json → Items → Items

  pub data Fields : Type 0 where
    end : Fields
    field : (name : String) → Json → Fields → Fields

abbrev pub natural : ℕ → Json
natural n = number (whole (pos n))

-- `obj[name]`
abbrev pub get : String → Fields → Json
get name end = undefined
get name (field key v fs) = if key == name then v else get name fs

-- `name in obj`
abbrev pub has_key : String → Fields → Bool
has_key name end = false
has_key name (field key v fs) = if key == name then true else has_key name fs

-- `value === undefined || value === null`
abbrev pub is_empty : Json → Bool
is_empty undefined = true
is_empty null = true
is_empty _ = false

-- `value === true`
abbrev pub is_true : Json → Bool
is_true (boolean b) = b
is_true _ = false

-- `value === t`
abbrev pub is_text : String → Json → Bool
is_text t (text u) = u == t
is_text t _ = false

-- `value <= n` and `n <= value`, for a number
abbrev pub at_most : ℕ → Number → Bool
at_most n (whole (pos m)) = leb m n
at_most n (between (pos m)) = ltb m n
at_most n (whole (negsuc _)) = true
at_most n (between (negsuc _)) = true

abbrev pub at_least : ℕ → Number → Bool
at_least n (whole (pos m)) = leb n m
at_least n (between (pos m)) = leb n m
at_least n (whole (negsuc _)) = false
at_least n (between (negsuc _)) = false
