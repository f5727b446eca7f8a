-- ===== src/Auth.antt =====
-- internal/auth/rbac.go: permissions, the role map the product ships with, and the access check.
-- A permission is a Go string; the constants keep its text.
pub mod Defaults
pub mod Laws
pub mod Roles
use Prim.Native.String.{String}
use nova_nas.Base.{
  Bool, true, false, Option, none, some, List, [], ◌∷◌, lookup, ◌=?◌, string_eq, if◌then◌else◌,
}

abbrev pub Permission : Type 0
Permission = String

abbrev pub RoleMap : Type 0
RoleMap = List (String × List Permission)

-- The one field of `Identity` that the check reads.
pub record Identity : Type 0 where
  pub roles : List String

-- The inner loop: `for _, granted := range perms`.
unfoldable pub granted_in : List Permission → Permission → Bool
granted_in [] p = false
granted_in (granted ∷ perms) p = if granted =? p then true else granted_in perms p

-- The outer loop over the identity's roles; a role the map lacks is skipped.
unfoldable pub any_role_grants : RoleMap → List String → Permission → Bool
any_role_grants role_map [] p = false
any_role_grants role_map (role ∷ roles) p =
    let rest = any_role_grants role_map roles p in
    elim (lookup role_map role) [
      | none ↦ rest
      | some perms ↦ if granted_in perms p then true else rest
    ]

-- `none` is a nil pointer or a nil map.
unfoldable pub identity_has_permission : Option RoleMap → Option Identity → Permission → Bool
unfolding granted_in any_role_grants
identity_has_permission none identity p = false
identity_has_permission (some role_map) none p = false
identity_has_permission (some role_map) (some identity) p =
    any_role_grants role_map identity.roles p
