-- ===== src/Tests/Names.antt =====
-- The theorems on internal/host/zfs/names and internal/auth, at concrete inputs.
use Prim.Native.String.{String}
use mathlib.Core.List.{Memᴰ}
use nova_nas.Base.{◌≡◌, ◌↔◌, refl, codes, none, [], ◌∷◌, lookup, string_eq}
use nova_nas.Names.{validate_snapshot_name}
use nova_nas.Names.Grammar.{Snapshot}
use nova_nas.Names.Accepts.{validate_snapshot_name_iff}
use nova_nas.Auth.{Identity, identity_has_permission, granted_in, any_role_grants}
use nova_nas.Auth.Defaults.{nova_admin_perms}
use nova_nas.Auth.Roles.{admin_only_needs_admin}

validate_snapshot_name_iff_example :
    (validate_snapshot_name (codes "tank/vm-1@auto") ≡ none) ↔ Snapshot (codes "tank/vm-1@auto")
validate_snapshot_name_iff_example = validate_snapshot_name_iff (codes "tank/vm-1@auto")

abbrev root : Identity
root = record { roles = "guest" ∷ "nova-admin" ∷ [] }

admin_only_needs_admin_example : Memᴰ {A = String} "nova-admin" root.roles
unfolding lookup granted_in any_role_grants identity_has_permission nova_admin_perms
admin_only_needs_admin_example =
    admin_only_needs_admin root "nova:encryption:recover" (Memᴰ.head refl) refl
