-- ===== src/Tests/Merging.antt =====
-- A merge of components that keeps what both have, and a response that is added to a route.
use rpi_nest_api.Prelude.{
  String, true, false, ◌≡◌, refl, sym, ap, subst, ◌∙◌, none, some, inl, inr, ◌==◌, eq_iff,
  Bool-cases,
}
use rpi_nest_api.Dbus.Variants.{
  Value, undefined, null, boolean, number, array, variant, text, object, Fields, end, field, get,
}
use rpi_nest_api.OpenApi.{get_, Operation, get_response_ref, with_default_responses, set_default}
use rpi_nest_api.OpenApi.Components.{
  property, component, IsSection, Merge, merged, RefersToStatus,
  with_default_responses-RefersToStatus,
}

-- The fields of the first, and then those of the second.
abbrev joined : Fields → Fields → Fields
joined end gs = gs
joined (field key v fs) gs = field key v (joined fs gs)

abbrev merge_value : Value → Value → Value
merge_value (object fs) (object gs) = object (joined gs fs)
merge_value _ v = v

abbrev sample_merge : Fields → Fields → Fields
sample_merge components end = components
sample_merge components (field key v other) =
    field key (merge_value (get key components) v) (sample_merge components other)

get-here :
    (key name : String) (v : Value) (fs : Fields)
    → (key == name) ≡ true
    → get name (field key v fs) ≡ v
get-here key name v fs e = rw (e, get) refl

get-later :
    (key name : String) (v : Value) (fs : Fields)
    → (key == name) ≡ false
    → get name (field key v fs) ≡ get name fs
get-later key name v fs e = rw (e, get) refl

get-joined :
    (name : String) (gs fs : Fields)
    → get name fs ≡ undefined
    → get name (joined gs fs) ≡ get name gs
get-joined name end fs e = e
get-joined name (field key v gs) fs e = elim (Bool-cases (key == name)) [
  | inl same ↦ get-here key name v (joined gs fs) same ∙ sym (get-here key name v gs same)
  | inr other ↦
      get-later key name v (joined gs fs) other
      ∙ get-joined name gs fs e
      ∙ sym (get-later key name v gs other)
]

object-merge_value :
    (name : String) (fs : Fields) (b : Value)
    → get name fs ≡ undefined
    → property name (merge_value (object fs) b) ≡ property name b
object-merge_value name fs (object gs) e = get-joined name gs fs e
object-merge_value name fs undefined e = refl
object-merge_value name fs null e = refl
object-merge_value name fs (boolean b) e = refl
object-merge_value name fs (number n) e = refl
object-merge_value name fs (text t) e = refl
object-merge_value name fs (array vs) e = refl
object-merge_value name fs (variant t v) e = refl

property-merge_value :
    (name : String) (a b : Value)
    → IsSection a
    → property name a ≡ undefined
    → property name (merge_value a b) ≡ property name b
property-merge_value name a b (inl e) h = rw e refl
property-merge_value name a b (inr (fs, e)) h = rw e (object-merge_value name fs b (rw e at h))

sample_merge_absent :
    (components other : Fields) (section name : String)
    → IsSection (get section components)
    → component section name components ≡ undefined
    → component section name (sample_merge components other) ≡ component section name other
sample_merge_absent components end section name s e = e
sample_merge_absent components (field key v other) section name s e =
    elim (Bool-cases (key == section)) [
      | inl same ↦
          ap (property name) (get-here key section _ (sample_merge components other) same)
          ∙ subst (λ k. property name (merge_value (get k components) v) ≡ property name v)
              (sym ((eq_iff key section).0 same)) (property-merge_value name _ v s e)
          ∙ sym (ap (property name) (get-here key section v other same))
      | inr different ↦
          ap (property name) (get-later key section _ (sample_merge components other) different)
          ∙ sample_merge_absent components other section name s e
          ∙ sym (ap (property name) (get-later key section v other different))
    ]

abbrev lodash : Merge
lodash = record { merge = sample_merge; merge_absent = sample_merge_absent }

abbrev own_components : Fields
own_components = field "schemas" (object (field "UserDto" (object end) end)) end

abbrev reading : Operation
reading = record { security = some (text "bearer"); responses = λ code. none }

with_default_responses-RefersToStatus_example :
    RefersToStatus (merged lodash own_components) (get_response_ref "NotAuthorized") "401"
unfolding with_default_responses set_default
with_default_responses-RefersToStatus_example =
    with_default_responses-RefersToStatus lodash own_components (inl refl) (λ name. refl) get_
      reading "401" (get_response_ref "NotAuthorized") refl refl
