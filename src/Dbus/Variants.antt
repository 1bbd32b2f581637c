-- ===== src/Dbus/Variants.antt =====
-- src/dbus/utils.ts: JavaScript values with D-Bus variants in them, and how they are taken out.
use rpi_nest_api.Prelude.{
  ℕ, String, Bool, true, false, ◌&&◌, List, [], ◌∷◌, ◌==◌, eqb, template, if◌then◌else◌,
}
use rpi_nest_api.Exec.{Exception, Result, ok, err, error}
pub mod Erase

-- Values as the D-Bus library parses them. A variant is an object of its class `Variant`, which is
-- not a plain object; the fields of a plain object have different names.
mutual
  pub data Value : Type 0 where
    undefined : Value
    null : Value
    boolean : Bool → Value
    number : ℕ → Value
    text : String → Value
    array : Items → Value
    object : Fields → Value
    variant : (signature : String) → Value → Value

  pub data Items : Type 0 where
    nil : Items
    item : Value → Items → Items

  pub data Fields : Type 0 where
    end : Fields
    field : (name : String) → Value → Fields → Fields

abbrev pub is_defined : Value → Bool
is_defined undefined = false
is_defined _ = true

-- `obj[name]`
abbrev pub get : String → Fields → Value
get name end = undefined
get name (field key v fs) = elim (key == name) [ true ↦ v | false ↦ get name fs ]

-- `name in obj`
abbrev pub has_key : String → Fields → Bool
has_key name end = false
has_key name (field key v fs) = if key == name then true else has_key name fs

-- `value === '...'`
abbrev pub is_text : String → Value → Bool
is_text t (text u) = u == t
is_text t _ = false

abbrev pub is_undefined : Value → Bool
is_undefined undefined = true
is_undefined _ = false

-- `value === n`
abbrev pub is_number : ℕ → Value → Bool
is_number n (number m) = eqb m n
is_number n _ = false

-- `toVariant`
abbrev pub to_variant : String → Value → Value
to_variant signature v = variant signature v

-- What reading a property of `undefined` or of `null` throws.
abbrev pub cannot_read : String → String → Exception
cannot_read thing name =
    error (template ("Cannot read properties of " ∷ thing ∷ " (reading '" ∷ name ∷ "')" ∷ []))

-- `obj.name`, for a name that the program gives to a field
abbrev pub property : String → Value → Result Value
property name undefined = err (cannot_read "undefined" name)
property name null = err (cannot_read "null" name)
property name (object fs) = ok (get name fs)
property name (variant signature v) =
    if name == "value"
    then ok v
    else if name == "signature"
    then ok (text signature)
    else ok undefined
property name _ = ok undefined

-- Whether a plain object has the two fields of a variant.
abbrev pub has_variant_fields : Fields → Bool
has_variant_fields fs = is_defined (get "value" fs) && is_defined (get "signature" fs)

-- `isVariant`
unfoldable pub is_variant : Value → Result Bool
is_variant undefined = err (cannot_read "undefined" "value")
is_variant null = err (cannot_read "null" "value")
is_variant (object fs) = ok (has_variant_fields fs)
is_variant (variant signature v) = ok (is_defined v)
is_variant _ = ok false

abbrev pub map_ok : {A B : Type 0} → (A → B) → Result A → Result B
map_ok f (ok a) = ok (f a)
map_ok f (err e) = err e

abbrev pub both_ok : {A B C : Type 0} → (A → B → C) → Result A → Result B → Result C
both_ok f (ok a) (ok b) = ok (f a b)
both_ok f (ok a) (err e) = err e
both_ok f (err e) _ = err e

-- `unwrapVariantDeep`, whose first step asks whether the value is a variant; `contents` is what
-- follows that step, and `contents_of` what follows it for the field `name`.
unfoldable mutual
  pub unwrap_variant_deep : Value → Result Value
  unwrap_variant_deep undefined = err (cannot_read "undefined" "value")
  unwrap_variant_deep null = err (cannot_read "null" "value")
  unwrap_variant_deep (boolean b) = ok (boolean b)
  unwrap_variant_deep (number n) = ok (number n)
  unwrap_variant_deep (text t) = ok (text t)
  unwrap_variant_deep (array vs) = map_ok array (unwrap_items vs)
  unwrap_variant_deep (object fs) = elim (has_variant_fields fs) [
    | true ↦ contents_of "value" fs
    | false ↦ map_ok object (unwrap_fields fs)
  ]
  unwrap_variant_deep (variant signature v) = elim (is_defined v) [
    | true ↦ contents v
    | false ↦ ok (variant signature v)
  ]

  pub contents : Value → Result Value
  contents (array vs) = map_ok array (unwrap_items vs)
  contents (object fs) = map_ok object (unwrap_fields fs)
  contents v = ok v

  pub contents_of : String → Fields → Result Value
  contents_of name end = ok undefined
  contents_of name (field key v fs) = elim (key == name) [
    | true ↦ contents v
    | false ↦ contents_of name fs
  ]

  pub unwrap_items : Items → Result Items
  unwrap_items nil = ok nil
  unwrap_items (item v vs) = both_ok item (unwrap_variant_deep v) (unwrap_items vs)

  pub unwrap_fields : Fields → Result Fields
  unwrap_fields end = ok end
  unwrap_fields (field key v fs) = both_ok (field key) (unwrap_variant_deep v) (unwrap_fields fs)

-- `unwrapVariantObject`
abbrev pub unwrap_variant_object : Fields → Result Value
unwrap_variant_object fs = unwrap_variant_deep (object fs)
