-- ===== src/Validation.antt =====
-- The checks of requests: the decorators of class-validator that the DTOs of src carry, and the
-- ValidationPipe of src/app.module.ts. Both libraries are parameters with their documented
-- behaviour; so are the mapped types of @nestjs/swagger, which make a DTO from another.
use Prim.Native.String
use rpi_nest_api.Prelude.{
  ℕ, zero, suc, ◌+◌, String, Bool, true, false, not, ◌&&◌, ◌||◌, ◌≡◌, ◌↔◌, Option, none, some, List,
  [], ◌∷◌, includes_text, is_some, leb, subst, ◌==◌, if◌then◌else◌,
}
use rpi_nest_api.Exec.{Result, ok, err, Exception}
use rpi_nest_api.Json.{
  Json, undefined, null, boolean, number, text, array, object, Items, nil, item, Fields, get,
  has_key, is_empty, at_most, at_least, Number,
}
pub mod Dto
pub mod Accounts
pub mod Addresses
pub mod Metadata
pub mod Syslog

-- The decorators, and what a DTO says of its properties: the decorators of each.
mutual
  pub data Decorator : Type 0 where
    is_optional is_defined is_not_empty is_string is_boolean is_number is_array : Decorator
    array_not_empty array_unique is_iso8601 : Decorator
    validate_if : (Fields → Bool) → Decorator
    max min max_length is_ip : ℕ → Decorator
    is_in is_in_each is_enum : List String → Decorator
    not_equals : String → Decorator
    validate_nested : Schema → Decorator

  pub data Decorators : Type 0 where
    bare : Decorators
    and : Decorator → Decorators → Decorators

  pub data Schema : Type 0 where
    no_property : Schema
    property : (name : String) → Decorators → Schema → Schema

-- The decorators of a property, where the DTO has it.
abbrev pub decorators : String → Schema → Option Decorators
decorators name no_property = none
decorators name (property key ds rest) = if key == name then some ds else decorators name rest

-- Whether a decorator leaves the others of its property aside, for a value in an object.
abbrev pub ignores : Decorator → Json → Fields → Bool
ignores is_optional v fs = is_empty v
ignores (validate_if condition) v fs = not (condition fs)
ignores _ v fs = false

abbrev pub ignored : Decorators → Json → Fields → Bool
ignored bare v fs = false
ignored (and d ds) v fs = ignores d v fs || ignored ds v fs

abbrev pub string_length : String → ℕ
string_length String.[] = 0
string_length (String.◌∷◌ _ s) = suc (string_length s)

abbrev pub text_items : List String → Items
text_items [] = nil
text_items (t ∷ ts) = item (text t) (text_items ts)

abbrev pub distinct : List String → Bool
distinct [] = true
distinct (t ∷ ts) = not (includes_text ts t) && distinct ts

abbrev pub every_in : List String → List String → Bool
every_in options [] = true
every_in options (t ∷ ts) = includes_text options t && every_in options ts

abbrev pub is_cons : List String → Bool
is_cons [] = false
is_cons (_ ∷ _) = true

-- The decorators of a property that a mapped type makes optional.
abbrev pub made_optional : Option Decorators → Option Decorators
made_optional none = none
made_optional (some ds) = some (and is_optional ds)

-- The decorators of a property, from a list.
abbrev pub decorated : List Decorator → Decorators
decorated [] = bare
decorated (d ∷ ds) = and d (decorated ds)

-- `@IsOptional` and `@ValidateIf` test nothing themselves.
abbrev pub is_condition : Decorator → Bool
is_condition is_optional = true
is_condition (validate_if _) = true
is_condition _ = false

abbrev pub Tested : (Decorator → Json → Bool) → Decorator → Json → Type 0
Tested check d v = is_condition d ≡ false → check d v ≡ true

abbrev pub AllTested : (Decorator → Json → Bool) → Decorators → Json → Type 0
AllTested check bare v = Unit
AllTested check (and d ds) v = Tested check d v × AllTested check ds v

-- Each property passes its tests unless they are left aside.
abbrev pub IsTested : (Decorator → Json → Bool) → Schema → Fields → Type 0
IsTested check schema fs =
    (name : String) (ds : Decorators)
    → decorators name schema ≡ some ds
    → ignored ds (get name fs) fs ≡ false
    → AllTested check ds (get name fs)

-- What a DTO asks of an object with `whitelist` and `forbidNonWhitelisted`: it has no other
-- property, and each property passes its tests.
pub record IsValid (check : Decorator → Json → Bool) (schema : Schema) (fs : Fields) : Type 0 where
  pub known : (name : String) → has_key name fs ≡ true → is_some (decorators name schema) ≡ true
  pub tested : IsTested check schema fs

-- class-validator's tests of single values, the pipe, which leaves the values of an object that it
-- accepts, and the mapped types.
pub record Checks : Type 0 where
  pub check : Decorator → Json → Bool
  pub ip_text : (version : ℕ) → String → Bool
  pub transform : Schema → Fields → Result Fields
  pub partial_type : Schema → Schema
  pub omit_type : List String → Schema → Schema
  pub pick_type : List String → Schema → Schema
  pub not_empty_lem : (t : String) → check is_not_empty (text t) ≡ not (t == "")
  pub not_empty_undefined : check is_not_empty undefined ≡ false
  pub is_defined_lem : (v : Json) → check is_defined v ≡ not (is_empty v)
  pub is_enum_lem :
      (ts : List String) (t : String) → check (is_enum ts) (text t) ≡ includes_text ts t
  pub not_equals_lem : (t u : String) → check (not_equals t) (text u) ≡ not (u == t)
  pub array_not_empty_lem :
      (ts : List String) → check array_not_empty (array (text_items ts)) ≡ is_cons ts
  pub array_unique_lem :
      (ts : List String) → check array_unique (array (text_items ts)) ≡ distinct ts
  pub max_lem : (n : ℕ) (m : Number) → check (max n) (number m) ≡ at_most n m
  pub min_lem : (n : ℕ) (m : Number) → check (min n) (number m) ≡ at_least n m
  pub max_length_lem :
      (n : ℕ) (t : String) → check (max_length n) (text t) ≡ leb (string_length t) n
  pub is_ip_lem : (version : ℕ) (t : String) → check (is_ip version) (text t) ≡ ip_text version t
  pub is_in_lem : (ts : List String) (t : String) → check (is_in ts) (text t) ≡ includes_text ts t
  pub nested_lem :
      (schema : Schema) (fs : Fields)
      → check (validate_nested schema) (object fs) ≡ true
      → IsValid check schema fs
  pub transform_accepted :
      (schema : Schema) (fs gs : Fields)
      → transform schema fs ≡ ok gs
      → (gs ≡ fs) × IsValid check schema fs
  pub partial_type_lem :
      (schema : Schema) (name : String)
      → decorators name (partial_type schema) ≡ made_optional (decorators name schema)
  pub omit_type_lem :
      (names : List String) (schema : Schema) (name : String)
      → decorators name (omit_type names schema)
        ≡ (if includes_text names name then none else decorators name schema)
  pub pick_type_lem :
      (names : List String) (schema : Schema) (name : String)
      → decorators name (pick_type names schema)
        ≡ (if includes_text names name then decorators name schema else none)

-- What the property of an object passes.
pub tested_at :
    (check : Decorator → Json → Bool) (schema : Schema) (fs : Fields) (name : String)
    (ds : Decorators) (v : Json)
    → IsTested check schema fs
    → decorators name schema ≡ some ds
    → get name fs ≡ v
    → ignored ds v fs ≡ false
    → AllTested check ds v
tested_at check schema fs name ds v tested d e i =
    subst (λ x. ignored ds x fs ≡ false → AllTested check ds x) e (tested name ds d) i
