-- ===== src/Auth/Laws.antt =====
-- What the access check of internal/auth/rbac.go means.
use Prim.Native.String.{String}
use mathlib.Core.List.{Memᴰ}
use nova_nas.Base.{
  true, some, List, [], ◌∷◌, ◌≡◌, refl, sym, inl, inr, ◌↔◌, arith, lookup, ◌=?◌, Bool-cases,
  Option-cases, string_eq,
}
use nova_nas.Auth.{
  Permission, RoleMap, Identity, granted_in, any_role_grants, identity_has_permission,
}

-- Some role of the list is in the map with a permission list that holds `p`.
pub record Grants (role_map : RoleMap) (roles : List String) (p : Permission) : Type 0 where
  pub role : String
  pub perms : List Permission
  pub has_role : Memᴰ role roles
  pub mapped : lookup role_map role ≡ some perms
  pub holds : Memᴰ p perms

pub granted_in_sound :
    (perms : List Permission) (p : Permission) → granted_in perms p ≡ true → Memᴰ p perms
unfolding granted_in
granted_in_sound [] p h = cc
granted_in_sound (g ∷ perms) p h = elim (Bool-cases (g =? p)) [
  | inl t ↦ Memᴰ.head (sym ((string_eq.beq_iff g p).0 t))
  | inr f ↦ Memᴰ.tail (granted_in_sound perms p (rw f at h))
]

pub granted_in_complete :
    {p : Permission} {perms : List Permission} → Memᴰ p perms → granted_in perms p ≡ true
unfolding granted_in
granted_in_complete {p} (Memᴰ.head {x} e) = ground (arith, (string_eq.beq_iff x p).1 (sym e))
granted_in_complete {p} (Memᴰ.tail m) = ground (arith, granted_in_complete m)

Grants-cons :
    {role_map : RoleMap} {roles : List String} {p : Permission} (role : String)
    → Grants role_map roles p
    → Grants role_map (role ∷ roles) p
Grants-cons role g = record {
  role = g.role;
  perms = g.perms;
  has_role = Memᴰ.tail g.has_role;
  mapped = g.mapped;
  holds = g.holds;
}

any_role_grants_sound :
    (role_map : RoleMap) (roles : List String) (p : Permission)
    → any_role_grants role_map roles p ≡ true
    → Grants role_map roles p
unfolding any_role_grants
any_role_grants_sound role_map [] p h = cc
any_role_grants_sound role_map (role ∷ roles) p h = elim (Option-cases (lookup role_map role)) [
  | inl e ↦ Grants-cons role (any_role_grants_sound role_map roles p (rw (any_role_grants, e) at h))
  | inr (perms, e) ↦ elim (Bool-cases (granted_in perms p)) [
    | inl t ↦ record {
      role = role;
      perms = perms;
      has_role = Memᴰ.head refl;
      mapped = e;
      holds = granted_in_sound perms p t;
    }
    | inr f ↦
        Grants-cons role (any_role_grants_sound role_map roles p (rw (any_role_grants, e, f) at h))
  ]
]

any_role_grants_complete :
    (role_map : RoleMap) (p : Permission) (role : String) (perms : List Permission)
    {roles : List String}
    → lookup role_map role ≡ some perms
    → granted_in perms p ≡ true
    → Memᴰ role roles
    → any_role_grants role_map roles p ≡ true
unfolding any_role_grants
any_role_grants_complete role_map p role perms m g (Memᴰ.head {x} {xs} e) = ground arith
any_role_grants_complete role_map p role perms m g (Memᴰ.tail {x} {xs} h) =
    ground (arith, any_role_grants_complete role_map p role perms m g h)

-- The check says yes exactly when the identity holds a role that the map gives the permission.
pub identity_has_permission_iff :
    (role_map : RoleMap) (identity : Identity) (p : Permission)
    → (identity_has_permission (some role_map) (some identity) p ≡ true)
      ↔ Grants role_map identity.roles p
unfolding identity_has_permission
identity_has_permission_iff role_map identity p = (
  any_role_grants_sound role_map identity.roles p,
  λ g.
      any_role_grants_complete role_map p g.role g.perms g.mapped (granted_in_complete g.holds)
        g.has_role,
)
