-- ===== src/OpenApi/Components.antt =====
-- src/open-api/constants.ts: the components that the description gets, and what the responses that
-- are added to its operations refer to. lodash's `merge` is a parameter.
use rpi_nest_api.Prelude.{
  ℕ, Bool, true, not, ◌&&◌, ◌==◌, String, ◌≡◌, ◌⊎◌, inl, inr, refl, sym, ap, subst, ◌∙◌, none, some,
  is_some, arith, eq_iff, Bool-cases,
}
use rpi_nest_api.Text.Number.{parse_int, non_negative, digits_from}
use rpi_nest_api.Text.{is_space}
use rpi_nest_api.Dbus.Variants.{
  Value, undefined, text, number, array, nil, item, object, Fields, end, field, get,
}
use rpi_nest_api.OpenApi.{is_get, HttpMethod, Operation, get_response_ref, with_default_responses}
use rpi_nest_api.OpenApi.Responses.{default_response, responses_at, first_defined}

-- `value[name]`, which is undefined where the value has no properties
abbrev pub property : String → Value → Value
property name (object fs) = get name fs
property name _ = undefined

abbrev pub type_of : String → Value
type_of name = object (field "type" (text name) end)

-- `response.content['application/json'].example.statusCode`
abbrev pub status_of : Value → Value
status_of response =
    property "statusCode"
      (property "example" (property "application/json" (property "content" response)))

-- ErrorSchema
abbrev pub error_schema : Value
error_schema = object (
    field "type" (text "object") (
      field "properties"
        (object (field "message" (type_of "string") (field "statusCode" (type_of "number") end)))
        (field "required" (array (item (text "message") (item (text "statusCode") nil))) end)))

abbrev pub create_error_response : String → ℕ → Value → Value → Value
create_error_response description status_code message error = object (
    field "description" (text description) (
      field "content"
        (object (
          field "application/json"
            (object (
              field "schema" (object (field "$ref" (text "#/components/schemas/Error") end)) (
                field "example"
                  (object (
                    field "statusCode" (number status_code)
                      (field "message" message (field "error" error end))))
                  end)))
            end))
        end))

abbrev pub responses : Fields
responses =
    field "InternalServerError"
      (create_error_response "Internal Server Error" 500 (text "Internal Server Error") undefined)
      (field "NotAuthorized"
        (create_error_response "Unauthorized" 401 (text "Unauthorized") undefined)
        (field "InvalidData"
          (create_error_response "Bad Request" 400 (array nil) (text "Bad Request")) end))

abbrev pub additional_components : Fields
additional_components =
    field "schemas" (object (field "Error" error_schema end))
      (field "responses" (object responses) end)

-- `components[section][name]`
abbrev pub component : String → String → Fields → Value
component section name components = property name (get section components)

abbrev pub IsSection : Value → Type 0
IsSection v = (v ≡ undefined) ⊎ ((fs : Fields) × (v ≡ object fs))

-- `merge(components, other)`: what the components lack comes from the other ones.
pub record Merge : Type 0 where
  pub merge : Fields → Fields → Fields
  pub merge_absent :
      (components other : Fields) (section name : String)
      → IsSection (get section components)
      → component section name components ≡ undefined
      → component section name (merge components other) ≡ component section name other

-- The components that a document has after the start.
abbrev pub merged : Merge → Fields → Fields
merged lodash components = lodash.merge components additional_components

-- A response refers to a component, whose example has a code as its status.
abbrev pub RefersToStatus : Fields → Value → String → Type 0
RefersToStatus components v code =
    (name : String) × (n : ℕ) × (v ≡ get_response_ref name)
    × (parse_int code ≡ some (non_negative n))
    × (status_of (component "responses" name components) ≡ number n)

left_true : (a b : Bool) → (a && b) ≡ true → a ≡ true
left_true a b h = ground arith

some-injective : {x v : Value} → some x ≡ some v → v ≡ x
some-injective e = cc

none-some : {A : Type 0} {v : A} → none ≡ some v → ⊥
none-some e = cc

module _ (lodash : Merge) (components : Fields)
    (is_section : IsSection (get "responses" components))
    (own : (name : String) → component "responses" name components ≡ undefined) where
  merged_response :
      (name : String) → component "responses" name (merged lodash components) ≡ get name responses
  merged_response name =
      lodash.merge_absent components additional_components "responses" name is_section (own name)

  named-RefersToStatus :
      (name : String) (n : ℕ) (code known : String) (v : Value)
      → some (get_response_ref name) ≡ some v
      → (code == known) ≡ true
      → parse_int known ≡ some (non_negative n)
      → status_of (get name responses) ≡ number n
      → RefersToStatus (merged lodash components) v code
  named-RefersToStatus name n code known v e same parsed status = (
    name,
    n,
    some-injective e,
    subst (λ c. parse_int c ≡ some (non_negative n)) (sym ((eq_iff code known).0 same)) parsed,
    ap status_of (merged_response name) ∙ status,
  )

  default_response-RefersToStatus :
      (method : HttpMethod) (is_secured : Bool) (code : String) (v : Value)
      → default_response method is_secured code ≡ some v
      → RefersToStatus (merged lodash components) v code
  unfolding parse_int is_space digits_from
  default_response-RefersToStatus method is_secured code v e =
      elim (Bool-cases ((code == "401") && is_secured)) [
        | inl first ↦
            named-RefersToStatus "NotAuthorized" 401 code "401" v (rw first at e)
              (left_true _ _ first) refl refl
        | inr not_first ↦ elim (Bool-cases ((code == "400") && not (is_get method))) [
          | inl second ↦
              named-RefersToStatus "InvalidData" 400 code "400" v (rw (not_first, second) at e)
                (left_true _ _ second) refl refl
          | inr not_second ↦ elim (Bool-cases (code == "500")) [
            | inl third ↦
                named-RefersToStatus "InternalServerError" 500 code "500" v
                  (rw (not_first, not_second, third) at e) third refl refl
            | inr not_third ↦ absurd (none-some (rw (not_first, not_second, not_third) at e))
          ]
        ]
      ]

  -- If the components of a description have no response of their own, each response that is added to
  -- an operation under a code refers, among the components with the additional ones, to a response
  -- whose example has that code as its status.
  pub with_default_responses-RefersToStatus :
      (method : HttpMethod) (o : Operation) (code : String) (v : Value)
      → o.responses code ≡ none
      → (with_default_responses method o).responses code ≡ some v
      → RefersToStatus (merged lodash components) v code
  with_default_responses-RefersToStatus method o code v missing added =
      default_response-RefersToStatus method (is_some o.security) code v (
        ap (λ r. first_defined r (default_response method (is_some o.security) code)) (sym missing)
        ∙ sym (responses_at method o code)
        ∙ added)
