-- ===== src/Auth/UserService/RoleOption.antt =====
-- The roles that `users add --roles` accepts.
use rpi_nest_api.Prelude.{
  ◌↔◌, String, ◌≡◌, refl, ap, sym, some, List, [], ◌∷◌, ◌++◌, map, arith, eq_iff, ◌∙◌, Option-cases,
  inl, inr,
}
use mathlib.Core.List.{append_assoc, append-nil}
use rpi_nest_api.Exec.{Result, ok, err}
use rpi_nest_api.Roles.{AccessRole, admin, user, read_only}
use rpi_nest_api.Auth.UserService.{role_of, get_roles, parse_roles}

abbrev pub role_text : AccessRole → String
role_text admin = "admin"
role_text user = "user"
role_text read_only = "read-only"

role_of-role_text : (r : AccessRole) → role_of (role_text r) ≡ some r
unfolding role_of
role_of-role_text admin = refl
role_of-role_text user = refl
role_of-role_text read_only = refl

role_text-role_of : (t : String) (r : AccessRole) → role_of t ≡ some r → role_text r ≡ t
unfolding role_of
role_text-role_of t r e = ground (arith, eq_iff t "admin", eq_iff t "user", eq_iff t "read-only")

get_roles_valid :
    (r : AccessRole) (before : List AccessRole)
    → get_roles (role_text r) before ≡ ok (before ++ r ∷ [])
unfolding get_roles
get_roles_valid r before = rw (role_of-role_text r, get_roles)

get_roles_sound :
    (t : String) (before after : List AccessRole)
    → get_roles t before ≡ ok after
    → (r : AccessRole) × (t ≡ role_text r) × (after ≡ before ++ r ∷ [])
unfolding get_roles
get_roles_sound t before after e = elim (Option-cases (role_of t)) [
  | inl bad ↦ ground arith
  | inr (r, good) ↦ (r, sym (role_text-role_of t r good), ground arith)
]

parse_roles-append :
    (roles before : List AccessRole)
    → parse_roles (map role_text roles) before ≡ ok (before ++ roles)
unfolding parse_roles
parse_roles-append [] before = rw append-nil
parse_roles-append (r ∷ roles) before =
    rw (get_roles_valid r before, parse_roles)
      (parse_roles-append roles (before ++ r ∷ []) ∙ ap ok (append_assoc before (r ∷ []) roles))

ok-injective : {x y : List AccessRole} → ok x ≡ ok y → x ≡ y
ok-injective e = cc

parse_roles_sound :
    (ts : List String) (before after : List AccessRole)
    → parse_roles ts before ≡ ok after
    → (roles : List AccessRole) × (ts ≡ map role_text roles) × (after ≡ before ++ roles)
unfolding parse_roles
parse_roles_sound [] before after e = ([], refl, sym (ok-injective e) ∙ sym (append-nil before))
parse_roles_sound (t ∷ ts) before after e =
    go (λ middle h. parse_roles_sound ts middle after h) (get_roles t before) refl e
  where
    go :
        ((middle : List AccessRole)
          → parse_roles ts middle ≡ ok after
          → (roles : List AccessRole) × (ts ≡ map role_text roles) × (after ≡ middle ++ roles))
        → (x : Result (List AccessRole)) → get_roles t before ≡ x
        → (elim x [ ok roles ↦ parse_roles ts roles | err p ↦ err p ]) ≡ ok after
        → (roles : List AccessRole) × (t ∷ ts ≡ map role_text roles) × (after ≡ before ++ roles)
    go ih (ok middle) s h =
        let (roles, texts, same) = ih middle h in
        let (r, text, one) = get_roles_sound t before middle s in
        (r ∷ roles, cc, same ∙ ap (λ x. x ++ roles) one ∙ append_assoc before (r ∷ []) roles)
    go ih (err p) s h = cc

-- The option accepts exactly the texts of roles, and gives the roles in the order of the texts.
pub parse_roles_iff :
    (ts : List String) (roles : List AccessRole)
    → (parse_roles ts [] ≡ ok roles) ↔ (ts ≡ map role_text roles)
parse_roles_iff ts roles = (
  λ e. let (rs, texts, same) = parse_roles_sound ts [] roles e in rw same texts,
  λ e. rw e (parse_roles-append roles []),
)
