-- ===== src/Roles.antt =====
-- src/authentication/constants.ts: the reserved login and the access roles.
use rpi_nest_api.Prelude.{String, Bool, true, false, Option, none, some, List, [], ◌∷◌, any}

-- 'admin', 'user' and 'read-only'
pub data AccessRole : Type 0 where
  admin user read_only : AccessRole

abbrev pub admin_user_name : String
admin_user_name = "admin"

abbrev pub restricted_access_roles : List AccessRole
restricted_access_roles = user ∷ read_only ∷ []

abbrev pub access_roles : List AccessRole
access_roles = admin ∷ restricted_access_roles

-- `a === b` on roles
abbrev pub same_role : AccessRole → AccessRole → Bool
same_role admin admin = true
same_role user user = true
same_role read_only read_only = true
same_role _ _ = false

-- `roles.includes(role)`
abbrev pub includes : List AccessRole → AccessRole → Bool
includes roles role = any (λ r. same_role r role) roles

-- `roles?.includes(role)` where no roles means no
abbrev pub includes? : Option (List AccessRole) → AccessRole → Bool
includes? none role = false
includes? (some roles) role = includes roles role
