-- ===== src/Dbus/Variants/Erase.antt =====
-- What the unwrapping of a message leaves.
use rpi_nest_api.Prelude.{String, Bool, true, false, ◌≡◌, refl}
use rpi_nest_api.Exec.{ok}
use rpi_nest_api.Dbus.Variants.{
  Value, undefined, null, boolean, number, text, array, object, variant, Items, nil, item, Fields,
  end, field, has_variant_fields, unwrap_variant_deep, unwrap_items, unwrap_fields,
}

-- The value with every variant in it replaced by its content.
abbrev mutual
  pub erase : Value → Value
  erase (variant signature v) = erase v
  erase (array vs) = array (erase_items vs)
  erase (object fs) = object (erase_fields fs)
  erase v = v

  pub erase_items : Items → Items
  erase_items nil = nil
  erase_items (item v vs) = item (erase v) (erase_items vs)

  pub erase_fields : Fields → Fields
  erase_fields end = end
  erase_fields (field key v fs) = field key (erase v) (erase_fields fs)

abbrev pub is_boxed : Value → Bool
is_boxed (variant _ _) = true
is_boxed _ = false

-- The values of messages that the unwrapping is made for: without `undefined`, with `null` only in
-- variants, with no plain object that has the fields of a variant, and with no variant directly in
-- a variant.
abbrev mutual
  pub IsMessage : Value → Type 0
  IsMessage undefined = ⊥
  IsMessage null = ⊥
  IsMessage (variant signature null) = Unit
  IsMessage (variant signature v) = IsMessage v × (is_boxed v ≡ false)
  IsMessage (array vs) = AreMessages vs
  IsMessage (object fs) = (has_variant_fields fs ≡ false) × HasMessages fs
  IsMessage _ = Unit

  pub AreMessages : Items → Type 0
  AreMessages nil = Unit
  AreMessages (item v vs) = IsMessage v × AreMessages vs

  pub HasMessages : Fields → Type 0
  HasMessages end = Unit
  HasMessages (field key v fs) = IsMessage v × HasMessages fs

mutual
  unfolding unwrap_variant_deep

  deep : (v : Value) → IsMessage v → unwrap_variant_deep v ≡ ok (erase v)
  deep undefined h = absurd h
  deep null h = absurd h
  deep (boolean b) h = refl
  deep (number n) h = refl
  deep (text t) h = refl
  deep (array vs) h = rw (items vs h)
  deep (object fs) h = rw (h.0, unwrap_variant_deep, fields fs h.1)
  deep (variant signature v) h = inside signature v h

  inside :
      (signature : String) (v : Value)
      → IsMessage (variant signature v)
      → unwrap_variant_deep (variant signature v) ≡ ok (erase v)
  inside signature undefined h = absurd h.0
  inside signature null h = refl
  inside signature (boolean _) h = refl
  inside signature (number n) h = refl
  inside signature (text t) h = refl
  inside signature (array vs) h = rw (items vs h.0)
  inside signature (object fs) h = rw (fields fs h.0.1)
  inside signature (variant _ v) h = let e = h.1 in cc

  items : (vs : Items) → AreMessages vs → unwrap_items vs ≡ ok (erase_items vs)
  items nil h = refl
  items (item v vs) h = rw (deep v h.0, items vs h.1)

  fields : (fs : Fields) → HasMessages fs → unwrap_fields fs ≡ ok (erase_fields fs)
  fields end h = refl
  fields (field key v fs) h = rw (deep v h.0, fields fs h.1)

-- A message without `undefined`, with `null` only in variants, with no plain object that has the
-- fields `value` and `signature`, and with no variant directly in a variant is unwrapped without
-- an error, and each of its variants, at any depth, is replaced by its content.
pub unwrap_variant_deep-erase : (v : Value) → IsMessage v → unwrap_variant_deep v ≡ ok (erase v)
unwrap_variant_deep-erase v h = deep v h
