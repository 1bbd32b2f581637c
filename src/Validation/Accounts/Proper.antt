-- ===== src/Validation/Accounts/Proper.antt =====
-- What the checks keep of the users: each has a login, at least one role, and no role twice.
use rpi_nest_api.Prelude.{
  ℕ, String, true, ◌≡◌, ◌≢◌, refl, sym, subst, ◌∙◌, Option, none, some, List, [], ◌∷◌, map, arith,
  ◌==◌, eq_iff, Bool-cases, Option-cases, inl, inr, includes_text, All, or_else,
}
use rpi_nest_api.Exec.{Result-cases}
use rpi_nest_api.Json.{Fields, text, get}
use rpi_nest_api.Roles.{AccessRole, admin, user, read_only, includes, same_role, admin_user_name}
use rpi_nest_api.Users
use rpi_nest_api.Users.{UserStore, UserData, update_found, merge, new_user}
use rpi_nest_api.Users.Directory.{view-put, view-remove}
use rpi_nest_api.Auth.Crypto.{Bcrypt}
use rpi_nest_api.Auth.UserService.{
  UpdateUserDto, UserRequest, put, patch, delete, handle, update_known,
}
use rpi_nest_api.Auth.UserService.RoleOption.{role_text}
use rpi_nest_api.Validation.{
  Checks, IsValid, distinct, is_cons, tested_at, AllTested, decorators, and, is_optional,
}
use rpi_nest_api.Validation.Dto.{user_dto, update_user_dto, roles_decorators}
use rpi_nest_api.Validation.Accounts.{
  Sends, schema_of, receive, receive_all, distinct_roles, roles_json,
}

includes-role_text :
    (rs : List AccessRole) (r : AccessRole)
    → includes_text (map role_text rs) (role_text r) ≡ includes rs r
includes-role_text [] r = refl
includes-role_text (x ∷ rs) r = rw (same x r, includes-role_text rs r)
  where
    same : (x r : AccessRole) → (role_text x == role_text r) ≡ same_role x r
    same admin admin = refl
    same admin user = refl
    same admin read_only = refl
    same user admin = refl
    same user user = refl
    same user read_only = refl
    same read_only admin = refl
    same read_only user = refl
    same read_only read_only = refl

distinct-role_text : (rs : List AccessRole) → distinct (map role_text rs) ≡ distinct_roles rs
distinct-role_text [] = refl
distinct-role_text (r ∷ rs) = rw (includes-role_text rs r, distinct-role_text rs)

abbrev pub HasRoles : List AccessRole → Type 0
HasRoles roles = (roles ≢ []) × (distinct_roles roles ≡ true)

has_roles :
    (roles : List AccessRole)
    → is_cons (map role_text roles) ≡ true
    → distinct (map role_text roles) ≡ true
    → HasRoles roles
has_roles [] c d = cc
has_roles (r ∷ rs) c d = (λ e. cc, sym (distinct-role_text (r ∷ rs)) ∙ d)

module _ (checks : Checks) where
  put_login :
      (fs : Fields) (login : String)
      → IsValid checks.check user_dto fs
      → get "login" fs ≡ text login
      → login ≢ ""
  put_login fs login valid e same =
      let t = tested_at checks.check user_dto fs "login" _ (text login) valid.tested refl e refl in
      ground (arith, checks.not_empty_lem login, eq_iff login "", t.1.0 refl)

  roles_tested :
      (roles : List AccessRole)
      → AllTested checks.check roles_decorators (roles_json roles)
      → HasRoles roles
  roles_tested roles t =
      has_roles roles (sym (checks.array_not_empty_lem (map role_text roles)) ∙ t.1.0 refl)
        (sym (checks.array_unique_lem (map role_text roles)) ∙ t.1.1.0 refl)

  put_roles :
      (fs : Fields) (roles : List AccessRole)
      → IsValid checks.check user_dto fs
      → get "roles" fs ≡ roles_json roles
      → HasRoles roles
  put_roles fs roles valid e = roles_tested roles (
      tested_at checks.check user_dto fs "roles" roles_decorators (roles_json roles) valid.tested
        refl e refl)

  patch_decorators :
      decorators "roles" (update_user_dto checks) ≡ some (and is_optional roles_decorators)
  patch_decorators = rw (checks.partial_type_lem, checks.omit_type_lem)

  patch_roles :
      (fs : Fields) (roles : List AccessRole)
      → IsValid checks.check (update_user_dto checks) fs
      → get "roles" fs ≡ roles_json roles
      → HasRoles roles
  patch_roles fs roles valid e =
      roles_tested roles
        (tested_at checks.check (update_user_dto checks) fs "roles"
          (and is_optional roles_decorators) (roles_json roles) valid.tested patch_decorators e
          refl).1

kept_roles :
    (o : Option (List AccessRole)) (old : List AccessRole)
    → HasRoles old
    → ((roles : List AccessRole) → o ≡ some roles → HasRoles roles)
    → HasRoles (or_else o old)
kept_roles none old h g = h
kept_roles (some roles) old h g = g roles refl

-- What stands under a login, if anything, has roles, and the login is not empty.
abbrev pub IsProper : String → Option UserData → Type 0
IsProper k none = Unit
IsProper k (some u) = (k ≢ "") × HasRoles u.roles

module _ {U : Type 0} (db : UserStore U) where
  abbrev pub AllProper : U → Type 0
  AllProper s = (k : String) → IsProper k (db.get s k)

  put-AllProper :
      (s : U) (k : String) (u : UserData)
      → AllProper s
      → k ≢ ""
      → HasRoles u.roles
      → AllProper (db.put s k u)
  put-AllProper s k u all n h j = elim (Bool-cases (k == j)) [
    | inl same ↦ rw (view-put db s k j u, same) (λ e. n ((eq_iff k j).0 same ∙ e), h)
    | inr other ↦ rw (view-put db s k j u, other) (all j)
  ]

  create-AllProper :
      (now : ℕ) (k : String) (c : Users.CreateUserData) (s : U)
      → AllProper s
      → k ≢ ""
      → HasRoles c.roles
      → AllProper (Users.create db now k c s).1
  unfolding Users.create
  create-AllProper now k c s all n h = elim (Bool-cases (db.does_exist s k)) [
    | inl known ↦ rw known all
    | inr free ↦ rw free (put-AllProper s k (new_user now k c) all n h)
  ]

  update_found-AllProper :
      (now : ℕ) (k : String) (c : Users.UpdateUserData) (s : U) (o : Option UserData)
      → db.get s k ≡ o
      → AllProper s
      → ((roles : List AccessRole) → c.roles ≡ some roles → HasRoles roles)
      → AllProper (update_found db now k c o s).1
  update_found-AllProper now k c s none e all h = all
  update_found-AllProper now k c s (some u) e all h =
      let p : IsProper k (some u) = subst (IsProper k) e (all k) in
      put-AllProper s k (merge now u c) all p.0 (kept_roles c.roles u.roles p.1 h)

  remove-AllProper : (k : String) (s : U) → AllProper s → AllProper (Users.remove db k s).1
  unfolding Users.remove
  remove-AllProper k s all = elim (Bool-cases (db.does_exist s k)) [
    | inr missing ↦ rw missing all
    | inl known ↦ rw known (λ j. elim (Bool-cases (k == j)) [
      | inl same ↦ rw (view-remove db s k j, same) tt
      | inr other ↦ rw (view-remove db s k j, other) (all j)
    ])
  ]

module _ {U : Type 0} (checks : Checks) (db : UserStore U) (bcrypt : Bcrypt) where
  update_known-AllProper :
      (now : ℕ) (k : String) (c : UpdateUserDto) (s : U)
      → AllProper db s
      → ((roles : List AccessRole) → c.roles ≡ some roles → HasRoles roles)
      → AllProper db (update_known db now k c s).1
  unfolding Users.update Users.get_by_login
  update_known-AllProper now k c s all h = elim (Bool-cases (k == admin_user_name)) [
    | inl reserved ↦ rw reserved all
    | inr free ↦ rw free (
        update_found-AllProper db now k
          (record { password_hash = none; description = c.description; roles = c.roles }) s
          (db.get s k) refl all h)
  ]

  handle-AllProper :
      (fs : Fields) (r : UserRequest) (s : U)
      → Sends fs r
      → IsValid checks.check (schema_of checks r) fs
      → AllProper db s
      → AllProper db (handle db bcrypt r s).1
  unfolding handle
  handle-AllProper fs (put now salt u) s (l, p, rs, d) valid all =
      elim (Bool-cases (u.login == admin_user_name)) [
        | inl reserved ↦ rw reserved all
        | inr free ↦ rw free (
            create-AllProper db now u.login _ s all (put_login checks fs u.login valid l)
              (put_roles checks fs u.roles valid rs))
      ]
  handle-AllProper fs (patch now c) s (l, rs, d) valid all = elim (Option-cases c.login) [
    | inl e ↦ rw e all
    | inr (k, e) ↦ rw e (
        update_known-AllProper now k c s all
          (λ roles same. patch_roles checks fs roles valid (rw (rs, same))))
  ]
  handle-AllProper fs (delete login) s l valid all = elim (Bool-cases (login == admin_user_name)) [
    | inl reserved ↦ rw reserved all
    | inr free ↦ rw free (remove-AllProper db login s all)
  ]

  receive-AllProper :
      (fs : Fields) (r : UserRequest) (s : U)
      → Sends fs r
      → AllProper db s
      → AllProper db (receive checks db bcrypt fs r s).1
  unfolding receive
  receive-AllProper fs r s sends all =
      elim (Result-cases (checks.transform (schema_of checks r) fs)) [
        | inr (x, e) ↦ rw e all
        | inl (gs, e) ↦ rw e (
            handle-AllProper fs r s sends (checks.transform_accepted (schema_of checks r) fs gs e).1
              all)
      ]

  -- Whatever requests the user controller receives, with bodies that have the values of the DTO's
  -- types and any other properties: if every stored user has a login that is not empty, at least
  -- one role and no role twice, so has every user that is stored afterwards.
  pub receive_all-AllProper :
      (rs : List (Fields × UserRequest)) (s : U)
      → All (λ x. Sends x.0 x.1) rs
      → AllProper db s
      → AllProper db (receive_all checks db bcrypt rs s)
  unfolding receive_all
  receive_all-AllProper [] s sends all = all
  receive_all-AllProper ((fs, r) ∷ rs) s (h, hs) all =
      receive_all-AllProper rs (receive checks db bcrypt fs r s).1 hs
        (receive-AllProper fs r s h all)
