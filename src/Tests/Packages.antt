-- ===== src/Tests/Packages.antt =====
-- Concrete packages: a hash that keeps the text, and the lists of `Reflector` and lodash.
use rpi_nest_api.Prelude.{
  Bool, true, ◌&&◌, ◌||◌, ◌≡◌, refl, Option, none, some, List, [], ◌∷◌, ◌++◌, arith, ◌==◌, eq_refl,
  if◌then◌else◌,
}
use rpi_nest_api.Roles.{AccessRole, same_role, includes, includes?}
use rpi_nest_api.Auth.Crypto.{Bcrypt}
use rpi_nest_api.Auth.Guard.{Reflector, Lodash}

abbrev pub plain_bcrypt : Bcrypt
plain_bcrypt = record {
  hash = λ text rounds salt. text;
  compare = λ text hash. text == hash;
  compare-hash = λ text rounds salt. eq_refl text;
}

abbrev first_of : Option Bool → Option Bool → Option Bool
first_of (some b) c = some b
first_of none c = c

abbrev roles_of : Option (List AccessRole) → List AccessRole
roles_of none = []
roles_of (some roles) = roles

abbrev merged : Option (List AccessRole) → Option (List AccessRole) → List AccessRole
merged h c = roles_of h ++ roles_of c

includes-append :
    (xs ys : List AccessRole) (r : AccessRole)
    → includes (xs ++ ys) r ≡ includes xs r || includes ys r
includes-append [] ys r = refl
includes-append (x ∷ xs) ys r = ground (arith, includes-append xs ys r)

includes-roles_of :
    (o : Option (List AccessRole)) (r : AccessRole) → includes (roles_of o) r ≡ includes? o r
includes-roles_of none r = refl
includes-roles_of (some roles) r = refl

pub includes-merged :
    (h c : Option (List AccessRole)) (r : AccessRole)
    → includes (merged h c) r ≡ includes? h r || includes? c r
includes-merged h c r =
    rw (includes-append (roles_of h) (roles_of c) r, includes-roles_of h r, includes-roles_of c r)

abbrev pub list_reflector : Reflector
list_reflector = record {
  get_all_and_override = first_of;
  get_all_and_merge = merged;
  override_first = λ b c. refl;
  override_second = λ c. refl;
  includes-merge = includes-merged;
}

abbrev common : List AccessRole → Option (List AccessRole) → List AccessRole
common [] ys = []
common (x ∷ xs) ys = let rest = common xs ys in if includes? ys x then x ∷ rest else rest

same_role-eq : (x r : AccessRole) → same_role x r ≡ true → x ≡ r
same_role-eq x r h = ground arith

pub includes-common :
    (xs : List AccessRole) (ys : Option (List AccessRole)) (r : AccessRole)
    → includes (common xs ys) r ≡ includes xs r && includes? ys r
includes-common [] ys r = refl
includes-common (x ∷ xs) ys r = ground (arith, includes-common xs ys r, same_role-eq x r)

abbrev pub list_lodash : Lodash
list_lodash = record { intersection = common; includes-intersection = includes-common }
