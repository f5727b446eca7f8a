-- ===== src/Auth/Roles.antt =====
-- What the shipped `DefaultRoleMap` of internal/auth/rbac.go gives to whom.
use Prim.Native.String.{String}
use mathlib.Core.List.{Memᴰ}
use text.Mathlib.TextEquality.{eq_iff}
use nova_nas.Base.{
  not, ◌||◌, Bool, true, false, not, ◌&&◌, some, List, [], ◌∷◌, ◌≡◌, refl, ◌⊎◌, inl, inr, arith,
  lookup, string_eq,
}
use nova_nas.Auth.{Permission, granted_in, identity_has_permission, Identity}
use nova_nas.Auth.Defaults
use nova_nas.Auth.Defaults.{
  default_role_map, nova_admin_perms, nova_operator_perms, nova_viewer_perms,
  nova_system_admin_perms,
}
use nova_nas.Auth.Laws.{granted_in_sound, granted_in_complete, identity_has_permission_iff}

-- Every permission of the first list is in the second.
included : List Permission → List Permission → Bool
included [] ys = true
included (x ∷ xs) ys = granted_in ys x && included xs ys

included_sound :
    (ys : List Permission) {p : Permission} {xs : List Permission}
    → included xs ys ≡ true
    → Memᴰ p xs
    → granted_in ys p ≡ true
unfolding included
included_sound ys {p} h (Memᴰ.head {x} {xs} e) = ground arith
included_sound ys {p} h (Memᴰ.tail {x} {xs} m) =
    ground (arith, included_sound ys {p = p} {xs = xs} (ground arith) m)

-- No permission of the first list is in the second.
disjoint : List Permission → List Permission → Bool
disjoint [] ys = true
disjoint (x ∷ xs) ys = not (granted_in ys x) && disjoint xs ys

disjoint_sound :
    (ys : List Permission) {p : Permission} {xs : List Permission}
    → disjoint xs ys ≡ true
    → Memᴰ p xs
    → granted_in ys p ≡ false
unfolding disjoint
disjoint_sound ys h (Memᴰ.head {x} {xs} e) = ground arith
disjoint_sound ys {p} h (Memᴰ.tail {x} {xs} m) =
    ground (arith, disjoint_sound ys {p = p} {xs = xs} (ground arith) m)

-- The four entries of the map; a name that is none of theirs has no entry.
lookup_default :
    (role : String) {perms : List Permission}
    → lookup default_role_map role ≡ some perms
    → (role ≡ "nova-admin")
      ⊎ (perms ≡ nova_operator_perms)
      ⊎ (perms ≡ nova_viewer_perms)
      ⊎ (perms ≡ nova_system_admin_perms)
unfolding lookup
lookup_default role h = ground (
  arith,
  eq_iff "nova-admin" role,
  eq_iff "nova-operator" role,
  eq_iff "nova-viewer" role,
  eq_iff "nova-system-admin" role,
)

-- The break-glass and trust-surface permissions.
abbrev pub admin_only : List Permission
admin_only =
    Defaults.perm_pool_encryption_recover ∷ Defaults.perm_krb5_read ∷ Defaults.perm_krb5_write
    ∷ Defaults.perm_notifications_write ∷ Defaults.perm_sessions_admin ∷ Defaults.perm_plugins_write
    ∷ Defaults.perm_plugins_admin ∷ Defaults.perm_marketplaces_admin ∷ []

operator_lacks : disjoint admin_only nova_operator_perms ≡ true
unfolding disjoint granted_in nova_operator_perms
operator_lacks = refl

viewer_lacks : disjoint admin_only nova_viewer_perms ≡ true
unfolding disjoint granted_in nova_viewer_perms
viewer_lacks = refl

system_admin_lacks : disjoint admin_only nova_system_admin_perms ≡ true
unfolding disjoint granted_in nova_system_admin_perms
system_admin_lacks = refl

-- Under the shipped map, an identity that passes the check for one of the admin-only permissions
-- holds the role nova-admin, whatever other roles it holds.
pub admin_only_needs_admin :
    (identity : Identity) (p : Permission)
    → Memᴰ p admin_only
    → identity_has_permission (some default_role_map) (some identity) p ≡ true
    → Memᴰ {A = String} "nova-admin" identity.roles
admin_only_needs_admin identity p only h =
    let g = (identity_has_permission_iff default_role_map identity p).0 h in
    let granted = granted_in_complete g.holds in
    elim (lookup_default g.role g.mapped) [
      | inl e ↦ rw e at g.has_role
      | inr (inl e) ↦
          absurd (cc (rw e at granted, disjoint_sound nova_operator_perms operator_lacks only))
      | inr (inr (inl e)) ↦
          absurd (cc (rw e at granted, disjoint_sound nova_viewer_perms viewer_lacks only))
      | inr (inr (inr e)) ↦
          absurd
            (cc (rw e at granted, disjoint_sound nova_system_admin_perms system_admin_lacks only))
    ]

-- What one shipped role gives.
abbrev pub role_grants : String → Permission → Bool
role_grants role p =
    identity_has_permission (some default_role_map) (some (record { roles = role ∷ [] })) p

viewer_in_operator : included nova_viewer_perms nova_operator_perms ≡ true
unfolding included granted_in nova_viewer_perms nova_operator_perms
viewer_in_operator = refl

operator_in_admin : included nova_operator_perms nova_admin_perms ≡ true
unfolding included granted_in nova_admin_perms nova_operator_perms
operator_in_admin = refl

system_admin_in_admin : included nova_system_admin_perms nova_admin_perms ≡ true
unfolding included granted_in nova_admin_perms nova_system_admin_perms
system_admin_in_admin = refl

included_grants :
    (xs ys : List Permission) (p : Permission)
    → included xs ys ≡ true
    → granted_in xs p ≡ true
    → granted_in ys p ≡ true
included_grants xs ys p h g = included_sound ys h (granted_in_sound xs p g)

-- Under the shipped map no permission is the viewer's and not the operator's, or the operator's or the
-- system admin's and not the admin's.
shipped_roles_nested :
    (p : Permission)
    → ((not (role_grants "nova-viewer" p) || role_grants "nova-operator" p) ≡ true)
      × ((not (role_grants "nova-operator" p) || role_grants "nova-admin" p) ≡ true)
      × ((not (role_grants "nova-system-admin" p) || role_grants "nova-admin" p) ≡ true)
unfolding identity_has_permission lookup
shipped_roles_nested p = (
  ground (arith, included_grants nova_viewer_perms nova_operator_perms p viewer_in_operator),
  ground (arith, included_grants nova_operator_perms nova_admin_perms p operator_in_admin),
  ground (arith, included_grants nova_system_admin_perms nova_admin_perms p system_admin_in_admin),
)
