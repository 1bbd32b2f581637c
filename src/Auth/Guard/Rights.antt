-- ===== src/Auth/Guard/Rights.antt =====
-- Which users may access which routes: the roles of a token against the roles of a route.
use rpi_nest_api.Prelude.{
  Bool, true, false, ◌&&◌, ◌||◌, ◌≡◌, ◌⊎◌, ◌↔◌, inl, inr, refl, sym, ap, ◌∙◌, Option, List, [], ◌∷◌,
  arith, ◌==◌, eq_iff, Bool-cases,
}
use rpi_nest_api.Roles.{
  AccessRole, admin, user, read_only, same_role, includes, includes?, admin_user_name,
}
use rpi_nest_api.Auth.Crypto.{AccessTokenPayload}
use rpi_nest_api.Auth.Guard.{Context, Reflector, Lodash, is_empty, is_user_authorized}

same_role_refl : (r : AccessRole) → same_role r r ≡ true
same_role_refl admin = refl
same_role_refl user = refl
same_role_refl read_only = refl

-- A role that both the route and the token name.
abbrev pub SharesRole : Context → Option (List AccessRole) → Type 0
SharesRole c roles =
    (r : AccessRole) × ((includes? c.handler_roles r || includes? c.class_roles r) ≡ true)
    × (includes? roles r ≡ true)

-- The account "admin", the role 'admin', or a role that the handler or its class names.
abbrev pub MayAccess : Context → AccessTokenPayload → Type 0
MayAccess c p =
    (p.sub ≡ admin_user_name) ⊎ ((includes? p.roles admin ≡ true) ⊎ SharesRole c p.roles)

head_included :
    (xs : List AccessRole) → is_empty xs ≡ false → (r : AccessRole) × (includes xs r ≡ true)
head_included [] h = cc
head_included (x ∷ xs) h = (x, ground (arith, same_role_refl x))

included-nonempty :
    (xs : List AccessRole) (r : AccessRole) → includes xs r ≡ true → is_empty xs ≡ false
included-nonempty [] r h = cc
included-nonempty (x ∷ xs) r h = refl

both : (a b : Bool) → (a && b) ≡ true → (a ≡ true) × (b ≡ true)
both true b h = (refl, h)
both false b h = cc

module _ (reflector : Reflector) (lodash : Lodash) where
  abbrev matching_roles : Context → Option (List AccessRole) → List AccessRole
  matching_roles c roles =
      lodash.intersection (reflector.get_all_and_merge c.handler_roles c.class_roles) roles

  includes-matching_roles :
      (c : Context) (roles : Option (List AccessRole)) (r : AccessRole)
      → includes (matching_roles c roles) r
        ≡ ((includes? c.handler_roles r || includes? c.class_roles r) && includes? roles r)
  includes-matching_roles c roles r =
      lodash.includes-intersection _ roles r
      ∙ ap (λ b. b && includes? roles r) (reflector.includes-merge c.handler_roles c.class_roles r)

  matching_roles-SharesRole :
      (c : Context) (roles : Option (List AccessRole))
      → is_empty (matching_roles c roles) ≡ false
      → SharesRole c roles
  matching_roles-SharesRole c roles h =
      let (r, included) = head_included (matching_roles c roles) h in
      let (named, held) = both _ _ (sym (includes-matching_roles c roles r) ∙ included) in
      (r, named, held)

  SharesRole-matching_roles :
      (c : Context) (roles : Option (List AccessRole))
      → SharesRole c roles
      → is_empty (matching_roles c roles) ≡ false
  SharesRole-matching_roles c roles (r, named, held) =
      included-nonempty (matching_roles c roles) r
        (includes-matching_roles c roles r ∙ ground arith)

  -- `isUserAuthorized` decides these rights.
  pub is_user_authorized_iff :
      (c : Context) (p : AccessTokenPayload)
      → (is_user_authorized reflector lodash c p ≡ true) ↔ MayAccess c p
  unfolding is_user_authorized
  is_user_authorized_iff c p = (
    λ h. elim (Bool-cases (p.sub == admin_user_name)) [
      | inl a ↦ inl ((eq_iff p.sub admin_user_name).0 a)
      | inr n ↦ elim (Bool-cases (includes? p.roles admin)) [
        | inl a ↦ inr (inl a)
        | inr m ↦ inr (inr (matching_roles-SharesRole c p.roles (ground arith)))
      ]
    ],
    λ h. elim h [
      | inl a ↦ ground (arith, eq_iff p.sub admin_user_name)
      | inr (inl a) ↦ ground arith
      | inr (inr shared) ↦ ground (arith, SharesRole-matching_roles c p.roles shared)
    ],
  )
