-- ===== src/OpenApi.antt =====
-- src/open-api/open-api.service.ts and constants.ts: what is added to the description of the API
-- and what is taken out of it. The description itself is made by a library.
use rpi_nest_api.Prelude.{
  String, Bool, true, false, ◌&&◌, not, Option, none, some, is_some, List, [], ◌∷◌, ◌==◌, template,
  if◌then◌else◌,
}
use rpi_nest_api.Dbus.Variants.{Value, undefined, object, Fields, end, field, get, has_key, is_text}
pub mod Responses
pub mod Components

-- ALL_METHODS
pub data HttpMethod : Type 0 where
  get_ put post delete options head patch trace : HttpMethod

abbrev pub all_methods : List HttpMethod
all_methods = get_ ∷ put ∷ post ∷ delete ∷ options ∷ head ∷ patch ∷ trace ∷ []

pub HttpMethod-discrete : Discrete HttpMethod
HttpMethod-discrete = hlevel

-- The responses of an operation by their codes.
abbrev pub Responses : Type 0
Responses = String → Option Value

pub record Operation : Type 0 where
  pub security : Option Value
  pub responses : Responses

-- `paths[path]`
abbrev pub PathItem : Type 0
PathItem = HttpMethod → Option Operation

-- `getResponseRef`
abbrev pub get_response_ref : String → Value
get_response_ref name =
    object (field "$ref" (Value.text (template ("#/components/responses/" ∷ name ∷ []))) end)

-- `responses[code] ??= response`
unfoldable pub set_default : String → Value → Responses → Responses
set_default code response responses key =
    if (key == code) && not (is_some (responses code)) then some response else responses key

abbrev pub is_get : HttpMethod → Bool
is_get get_ = true
is_get _ = false

-- The body of the loop, for an operation.
unfoldable pub with_default_responses : HttpMethod → Operation → Operation
with_default_responses method o =
    let authorized =
      if is_some o.security
      then set_default "401" (get_response_ref "NotAuthorized") o.responses
      else o.responses in
    let valid =
      if is_get method
      then authorized
      else set_default "400" (get_response_ref "InvalidData") authorized in
    record o { responses = set_default "500" (get_response_ref "InternalServerError") valid }

abbrev pub map_operation : (Operation → Operation) → Option Operation → Option Operation
map_operation f none = none
map_operation f (some o) = some (f o)

-- `const operation = paths[path][method]; if (operation) { ... }`
unfoldable pub visit : HttpMethod → PathItem → PathItem
visit method item m = elim (HttpMethod-discrete method m) [
  | yes _ ↦ map_operation (with_default_responses m) (item m)
  | no _ ↦ item m
]

unfoldable pub visit_each : List HttpMethod → PathItem → PathItem
visit_each [] item = item
visit_each (method ∷ methods) item = visit_each methods (visit method item)

unfoldable pub add_default_responses : List (String × PathItem) → List (String × PathItem)
add_default_responses [] = []
add_default_responses ((path, item) ∷ paths) =
    (path, visit_each all_methods item) ∷ add_default_responses paths

-- `delete obj[name]`
abbrev pub remove_key : String → Fields → Fields
remove_key name end = end
remove_key name (field key v fs) =
    let rest = remove_key name fs in if key == name then rest else field key v rest

-- The test and the deletion, for a property of a schema.
abbrev pub fix_property : Value → Value
fix_property (object fs) =
    if has_key "items" fs && has_key "enum" fs then object (remove_key "enum" fs) else object fs
fix_property v = v

abbrev pub fix_properties : Fields → Fields
fix_properties end = end
fix_properties (field key v fs) = field key (fix_property v) (fix_properties fs)

-- The schema with its properties replaced, where they are an object.
abbrev pub fix_key : String → Value → Value
fix_key key (object fs) = if key == "properties" then object (fix_properties fs) else object fs
fix_key key v = v

abbrev pub fix_each_key : Fields → Fields
fix_each_key end = end
fix_each_key (field key v fs) = field key (fix_key key v) (fix_each_key fs)

unfoldable pub fix_schema : Value → Value
fix_schema (object fs) =
    if is_text "object" (get "type" fs) then object (fix_each_key fs) else object fs
fix_schema v = v

-- `fixBrokenEnumArrays`, for the schemas by their names
unfoldable pub fix_broken_enum_arrays : List (String × Value) → List (String × Value)
fix_broken_enum_arrays [] = []
fix_broken_enum_arrays ((name, schema) ∷ schemas) =
    (name, fix_schema schema) ∷ fix_broken_enum_arrays schemas
