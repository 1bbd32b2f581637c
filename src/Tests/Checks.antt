-- ===== src/Tests/Checks.antt =====
-- Checks of requests that behave as the libraries document, for a few addresses.
use rpi_nest_api.Prelude.{
  ℕ, String, Bool, true, false, not, ◌&&◌, ◌||◌, ◌≡◌, refl, ap, subst, Option, none, some, List, [],
  ◌∷◌, includes_text, is_some, leb, arith, ◌==◌, eq_iff, eqb, Bool-cases, inl, inr, if◌then◌else◌,
}
use rpi_nest_api.Exec.{Result, ok, err, bad_request}
use rpi_nest_api.Json.{
  Json, boolean, number, text, array, object, Items, nil, item, Fields, end, field, get, has_key,
  is_empty, is_text, at_most, at_least,
}
use rpi_nest_api.Validation.{
  Decorator, Decorators, bare, and, Schema, no_property, property, decorators, ignored,
  string_length, distinct, is_cons, text_items, made_optional, is_condition, AllTested, IsValid,
  Checks, is_optional, is_defined, is_not_empty, is_string, is_boolean, is_number, is_array,
  array_not_empty, array_unique, is_iso8601, max, min, max_length, is_ip, is_in, is_in_each,
  is_enum, not_equals, validate_nested,
}

abbrev known : Schema → Fields → Bool
known schema end = true
known schema (field key v fs) = is_some (decorators key schema) && known schema fs

abbrev texts_of : Items → List String
texts_of nil = []
texts_of (item (text t) vs) = t ∷ texts_of vs
texts_of (item _ vs) = texts_of vs

abbrev every_in : List String → Items → Bool
every_in options nil = true
every_in options (item (text t) vs) = includes_text options t && every_in options vs
every_in options (item _ vs) = false

abbrev sample_ip : ℕ → String → Bool
sample_ip version t =
    if eqb version 4
    then includes_text ("192.168.0.1" ∷ "192.168.0.2" ∷ []) t
    else includes_text ("fe80::1" ∷ []) t

unfoldable mutual
  pub check : Decorator → Json → Bool
  check is_not_empty (text t) = not (t == "")
  check is_not_empty v = not (is_empty v)
  check is_defined v = not (is_empty v)
  check is_string (text t) = true
  check is_boolean (boolean b) = true
  check is_number (number n) = true
  check is_array (array vs) = true
  check array_not_empty (array vs) = is_cons (texts_of vs)
  check array_unique (array vs) = distinct (texts_of vs)
  check is_iso8601 (text t) = t == "2023-01-01T01:02:03.000Z"
  check (max n) (number m) = at_most n m
  check (min n) (number m) = at_least n m
  check (max_length n) (text t) = leb (string_length t) n
  check (is_ip version) (text t) = sample_ip version t
  check (is_in ts) (text t) = includes_text ts t
  check (is_enum ts) (text t) = includes_text ts t
  check (is_in_each ts) (array vs) = every_in ts vs
  check (not_equals t) v = not (is_text t v)
  check (validate_nested schema) (object fs) = known schema fs && entries schema fs
  check _ _ = false

  pub passes : Decorators → Json → Bool
  passes bare v = true
  passes (and d ds) v = (is_condition d || check d v) && passes ds v

  pub entries : Schema → Fields → Bool
  entries no_property fs = true
  entries (property name ds rest) fs =
      (ignored ds (get name fs) fs || passes ds (get name fs)) && entries rest fs

both : (a b : Bool) → (a && b) ≡ true → (a ≡ true) × (b ≡ true)
both true true h = (refl, refl)
both true false h = cc
both false b h = cc

passes-AllTested : (ds : Decorators) (v : Json) → passes ds v ≡ true → AllTested check ds v
unfolding passes
passes-AllTested bare v h = tt
passes-AllTested (and d ds) v h =
    let (p, q) = both (is_condition d || check d v) (passes ds v) h in
    (λ c. ground (arith, p, c), passes-AllTested ds v q)

known-is_some :
    (schema : Schema) (fs : Fields) (name : String)
    → known schema fs ≡ true
    → has_key name fs ≡ true
    → is_some (decorators name schema) ≡ true
known-is_some schema end name k h = cc
known-is_some schema (field key v fs) name k h =
    let (p, q) = both (is_some (decorators key schema)) (known schema fs) k in
    elim (Bool-cases (key == name)) [
      | inl same ↦ subst (λ n. is_some (decorators n schema) ≡ true) ((eq_iff key name).0 same) p
      | inr other ↦ known-is_some schema fs name q (rw other at h)
    ]

pub entries-tested :
    (schema : Schema) (fs : Fields) (name : String) (ds : Decorators)
    → entries schema fs ≡ true
    → decorators name schema ≡ some ds
    → ignored ds (get name fs) fs ≡ false
    → AllTested check ds (get name fs)
unfolding entries
entries-tested no_property fs name ds e d i = cc
entries-tested (property key es rest) fs name ds e d i =
    let (p, q) = both (ignored es (get key fs) fs || passes es (get key fs)) (entries rest fs) e in
    elim (Bool-cases (key == name)) [
      | inl same ↦
          let here : Path (Option Decorators) (some es) (some ds) = rw same at d in
          passes-AllTested ds (get name fs) (ground (arith, (eq_iff key name).0 same, here, i, p))
      | inr other ↦ entries-tested rest fs name ds q (rw other at d) i
    ]

abbrev accepts : Schema → Fields → Bool
accepts schema fs = known schema fs && entries schema fs

pub accepts-IsValid :
    (schema : Schema) (fs : Fields) → accepts schema fs ≡ true → IsValid check schema fs
accepts-IsValid schema fs h =
    let (k, e) = both (known schema fs) (entries schema fs) h in
    record {
      known = λ name. known-is_some schema fs name k;
      tested = λ name ds. entries-tested schema fs name ds e;
    }

abbrev transform : Schema → Fields → Result Fields
transform schema fs = if accepts schema fs then ok fs else err (bad_request "Bad Request Exception")

pub transform_lem :
    (schema : Schema) (fs gs : Fields)
    → transform schema fs ≡ ok gs
    → (gs ≡ fs) × IsValid check schema fs
transform_lem schema fs gs h = elim (Bool-cases (accepts schema fs)) [
  | inl accepted ↦ (ground (arith, accepted, h), accepts-IsValid schema fs accepted)
  | inr rejected ↦ absurd (ground (arith, rejected, h))
]

abbrev partial_type : Schema → Schema
partial_type no_property = no_property
partial_type (property name ds rest) = property name (and is_optional ds) (partial_type rest)

abbrev omit_type : List String → Schema → Schema
omit_type names no_property = no_property
omit_type names (property name ds rest) =
    if includes_text names name
    then omit_type names rest
    else property name ds (omit_type names rest)

abbrev pick_type : List String → Schema → Schema
pick_type names no_property = no_property
pick_type names (property name ds rest) =
    if includes_text names name
    then property name ds (pick_type names rest)
    else pick_type names rest

pub partial_type_lem :
    (schema : Schema) (name : String)
    → decorators name (partial_type schema) ≡ made_optional (decorators name schema)
partial_type_lem no_property name = refl
partial_type_lem (property key ds rest) name = ground (arith, partial_type_lem rest name)

pub omit_type_lem :
    (names : List String) (schema : Schema) (name : String)
    → decorators name (omit_type names schema)
      ≡ (if includes_text names name then none else decorators name schema)
omit_type_lem names no_property name = ground arith
omit_type_lem names (property key ds rest) name =
    ground (arith, omit_type_lem names rest name, eq_iff key name)

pub pick_type_lem :
    (names : List String) (schema : Schema) (name : String)
    → decorators name (pick_type names schema)
      ≡ (if includes_text names name then decorators name schema else none)
pick_type_lem names no_property name = ground arith
pick_type_lem names (property key ds rest) name =
    ground (arith, pick_type_lem names rest name, eq_iff key name)

pub defined_lem : (v : Json) → check is_defined v ≡ not (is_empty v)
unfolding check
defined_lem v = refl

pub texts_of-text_items : (ts : List String) → texts_of (text_items ts) ≡ ts
texts_of-text_items [] = refl
texts_of-text_items (t ∷ ts) = ap (λ us. t ∷ us) (texts_of-text_items ts)

abbrev pub sample_checks : Checks
unfolding check
sample_checks = record {
  check = check;
  ip_text = sample_ip;
  transform = transform;
  partial_type = partial_type;
  omit_type = omit_type;
  pick_type = pick_type;
  not_empty_lem = λ t. refl;
  not_empty_undefined = refl;
  is_defined_lem = defined_lem;
  is_enum_lem = λ ts t. refl;
  not_equals_lem = λ t u. refl;
  array_not_empty_lem = λ ts. ap is_cons (texts_of-text_items ts);
  array_unique_lem = λ ts. ap distinct (texts_of-text_items ts);
  max_lem = λ n m. refl;
  min_lem = λ n m. refl;
  max_length_lem = λ n t. refl;
  is_ip_lem = λ version t. refl;
  is_in_lem = λ ts t. refl;
  nested_lem = accepts-IsValid;
  transform_accepted = transform_lem;
  partial_type_lem = partial_type_lem;
  omit_type_lem = omit_type_lem;
  pick_type_lem = pick_type_lem;
}
