-- ===== src/Krb5Sync/Principals.antt =====
-- The names of principals in internal/krb5sync/sync.go: those that a user of Keycloak is to have, and the tests
-- for names of services and of users.
use nova_nas.Base.{
  ℕ, ◌+◌, ◌-◌, Bool, true, false, not, ◌&&◌, ◌||◌, Option, none, some, List, [], ◌∷◌, ◌++◌, Text,
  codes, text_eq, ◌=?◌, contains, lookup, length, take, drop, sort_stable, has_prefix, trim_space,
  equal_fold, ltb, leb, ◌==◌, if◌then◌else◌,
}

-- `KeycloakUser`
pub record User : Type 0 where
  pub id : Text
  pub username : Text
  pub enabled : Bool
  pub attributes : List (Text × List Text)

abbrev pub tenant_attribute : Text
tenant_attribute = codes "nova-tenant"

abbrev pub platform_nfs_attribute : Text
platform_nfs_attribute = codes "nova-platform-nfs"

-- The values of an attribute, none where it is missing.
abbrev pub values_of : Option (List Text) → List Text
values_of none = []
values_of (some values) = values

unfoldable pub tenants : User → List Text
tenants u = values_of (lookup u.attributes tenant_attribute)

unfoldable pub any_true : List Text → Bool
any_true [] = false
any_true (v ∷ vs) = equal_fold (trim_space v) (codes "true") || any_true vs

unfoldable pub platform_nfs_enabled : User → Bool
platform_nfs_enabled u = any_true (values_of (lookup u.attributes platform_nfs_attribute))

abbrev pub service_prefixes : List Text
service_prefixes =
    codes "krbtgt/" ∷ codes "kadmin/" ∷ codes "nfs/" ∷ codes "host/" ∷ codes "K/M" ∷ []

unfoldable pub is_prefixed : List Text → Text → Bool
is_prefixed [] name = false
is_prefixed (p ∷ ps) name = name =? p || has_prefix name p || is_prefixed ps name

unfoldable pub is_service_principal : Text → Bool
is_service_principal name = is_prefixed service_prefixes name

-- The order of `sort.Strings`, for `sort_stable`.
unfoldable pub text_lt : Text → Text → Bool
text_lt s [] = false
text_lt [] (d ∷ t) = true
text_lt (c ∷ s) (d ∷ t) = ltb c d || (c == d && text_lt s t)

abbrev pub tenant_principal : Text → Text → Text → Text
tenant_principal username tenant realm = username ++ (b'/' ∷ tenant ++ (b'@' ∷ realm))

abbrev pub bare_principal : Text → Text → Text
bare_principal username realm = username ++ (b'@' ∷ realm)

-- The loop over the tenants of a user: one name for each that is not blank, the first time that it comes.
unfoldable pub tenant_names : Text → Text → List Text → List Text → List Text
tenant_names username realm seen [] = []
tenant_names username realm seen (t ∷ ts) =
    let name = tenant_principal username (trim_space t) realm in
    let passed_over = tenant_names username realm seen ts in
    let added = name ∷ tenant_names username realm (name ∷ seen) ts in
    if length (trim_space t) == 0
    then passed_over
    else if contains seen name
    then passed_over
    else added

unfoldable pub expected_principals : User → Text → List Text
expected_principals u realm =
    if not u.enabled || length (trim_space u.username) == 0
    then []
    else if length (tenants u) == 0
    then (if platform_nfs_enabled u then bare_principal u.username realm ∷ [] else [])
    else sort_stable text_lt (tenant_names u.username realm [] (tenants u))

-- `strings.HasSuffix(s, suffix)`
unfoldable pub has_suffix : Text → Text → Bool
has_suffix s suffix = leb (length suffix) (length s) && drop (length s - length suffix) s =? suffix

unfoldable pub count_char : ℕ → Text → ℕ
count_char c [] = 0
count_char c (d ∷ s) = (if c == d then 1 else 0) + count_char c s

unfoldable pub principal_user_pattern : Text → Text → Bool
principal_user_pattern name realm =
    let suffix = b'@' ∷ realm in
    let local = take (length name - length suffix) name in
    if is_service_principal name
    then false
    else if not (has_suffix name suffix)
    then false
    else if length local == 0
    then false
    else not (ltb 1 (count_char b'/' local))
