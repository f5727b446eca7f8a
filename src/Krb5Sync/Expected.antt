-- ===== src/Krb5Sync/Expected.antt =====
-- Which principals a user is to have.
use nova_nas.Base.{
  ◌≡◌, refl, ap, inl, inr, Bool, false, not, ◌&&◌, ◌||◌, List, [], ◌∷◌, Text, text_eq, ◌=?◌,
  contains, contains-sort_stable, arith, Bool-cases, length, trim_space, ◌==◌, if◌then◌else◌,
}
use nova_nas.Krb5Sync.Principals.{
  User, tenants, platform_nfs_enabled, tenant_principal, bare_principal, tenant_names,
  expected_principals, text_lt,
}

-- The name is the one that the user has in one of the tenants that are not blank.
abbrev pub is_tenant_principal : Text → Text → List Text → Text → Bool
is_tenant_principal username realm [] n = false
is_tenant_principal username realm (t ∷ ts) n =
    not (length (trim_space t) == 0) && tenant_principal username (trim_space t) realm =? n
    || is_tenant_principal username realm ts n

tenant_names_lem :
    (username realm : Text) (seen ts : List Text) (n : Text)
    → contains (tenant_names username realm seen ts) n
      ≡ (is_tenant_principal username realm ts n && not (contains seen n))
unfolding tenant_names contains
tenant_names_lem username realm seen [] n = refl
tenant_names_lem username realm seen (t ∷ ts) n =
    let name = tenant_principal username (trim_space t) realm in
    elim (Bool-cases (name =? n)) [
      | inl same ↦ ground (
        arith,
        same,
        ap (contains seen) ((text_eq.beq_iff name n).0 same),
        tenant_names_lem username realm seen ts n,
        tenant_names_lem username realm (name ∷ seen) ts n,
      )
      | inr other ↦ ground (
        arith,
        other,
        tenant_names_lem username realm seen ts n,
        tenant_names_lem username realm (name ∷ seen) ts n,
      )
    ]

-- A name is among the principals that a user is to have exactly when the user is enabled, the username is not
-- blank, and the name is the user's in a tenant that is not blank; or, where the user has no tenant attribute, the
-- bare one, and the platform attribute says so.
pub contains-expected_principals :
    (u : User) (realm n : Text)
    → contains (expected_principals u realm) n ≡ (
        u.enabled
        && not (length (trim_space u.username) == 0)
        && (if length (tenants u) == 0
            then platform_nfs_enabled u && bare_principal u.username realm =? n
            else is_tenant_principal u.username realm (tenants u) n))
unfolding expected_principals contains
contains-expected_principals u realm n = ground (
  arith,
  contains-sort_stable text_lt (tenant_names u.username realm [] (tenants u)) n,
  tenant_names_lem u.username realm [] (tenants u) n,
)
