-- ===== src/Tests/Krb5.antt =====
-- The synchronisation of Kerberos principals on small concrete inputs.
use nova_nas.Base.{
  length, ◌==◌, ◌≡◌, refl, ap, Bool, true, false, not, ◌&&◌, ◌||◌, Option, none, some, List, [],
  ◌∷◌, Text, codes, text_eq, text_beq, ◌=?◌, contains, contains-keep_if, keep_if, lookup, ok,
  set_of, keys_of, map, trim_space, equal_fold, trim_left, trim_right, has_prefix, sort_stable,
  insert_sorted, insert, delete, if◌then◌else◌,
}
use nova_nas.Krb5Sync.Principals.{
  bare_principal, User, tenant_attribute, expected_principals, is_service_principal,
  principal_user_pattern, tenants, tenant_names, any_true, platform_nfs_enabled, is_prefixed,
  has_suffix, count_char, text_lt,
}
use nova_nas.Krb5Sync.{
  Kdc, State, PassResult, reconcile_once, run_pass, update_state, create_all, delete_all,
  note_create, note_delete, create_names, delete_candidates, desired_from, want_all,
  desired_by_user, forget_gone, record_users, set_user_principals,
}
use nova_nas.Krb5Sync.Expected.{is_tenant_principal, contains-expected_principals}
use nova_nas.Krb5Sync.Pass.{is_wanted, reconcile_once-deleted}
use nova_nas.Krb5Sync.Effect.{Keeps, reconcile_once-has, reconcile_once_twice}
use nova_nas.Krb5Sync.Record.{update_state-none}

abbrev realm : Text
realm = codes "R"

abbrev user : Text → Text → Bool → User
user name tenant enabled = record {
  id = name;
  username = name;
  enabled = enabled;
  attributes = (tenant_attribute, tenant ∷ []) ∷ [];
}

abbrev users : List User
users = user (codes "al") (codes "x") true ∷ user (codes "bo") (codes "x") false ∷ []

-- A KDC that is a list of names, on which no call fails.
abbrev list_kdc : Kdc (List Text)
list_kdc = record {
  list_principals = λ s. some s;
  create_principal = λ s name. (name ∷ s, true);
  delete_principal = λ s name. (keep_if (λ n. not (name =? n)) s, true);
}

list_kdc-creates :
    (s : List Text) (name n : Text) → contains (name ∷ s) n ≡ (name =? n || contains s n)
unfolding contains
list_kdc-creates s name n = refl

list_kdc-lists :
    (s ns : List Text) (n : Text)
    → ◌≡◌ {A = Option (List Text)} (some s) (some ns)
    → contains ns n ≡ contains s n
list_kdc-lists s ns n h = ap (λ l. contains l n) (cc)

list_kdc-Keeps : Keeps list_kdc contains
list_kdc-Keeps = record {
  lists = λ s ns n h. list_kdc-lists s ns n h;
  creates = λ s name n h. list_kdc-creates s name n;
  deletes = λ s name n h. contains-keep_if (λ m. not (name =? m)) s n;
}

abbrev before_pass : List Text
before_pass = codes "bo/x@R" ∷ codes "nfs/a@R" ∷ []

abbrev old_state : State
old_state = record {
  last_sync_unix = 0;
  last_event_unix = 0;
  user_principals = (codes "bo", codes "bo/x@R" ∷ []) ∷ [];
}

-- The principal of the user who is enabled is created, that of the one who is disabled is deleted, and the
-- record of the latter stays.
abbrev synced : List Text
synced = codes "al/x@R" ∷ codes "nfs/a@R" ∷ []

abbrev new_state : State
new_state = record {
  last_sync_unix = 7;
  last_event_unix = 0;
  user_principals = (codes "bo", codes "bo/x@R" ∷ []) ∷ (codes "al", codes "al/x@R" ∷ []) ∷ [];
}

abbrev first_result : PassResult
first_result = record {
  users_considered = 2;
  principals_desired = 1;
  principals_in_kdc = 2;
  created = codes "al/x@R" ∷ [];
  deleted = codes "bo/x@R" ∷ [];
  create_errors = 0;
  delete_errors = 0;
}

first_pass :
    reconcile_once list_kdc realm 7 (some users) before_pass old_state
    ≡ (synced, new_state, ok first_result)
unfolding reconcile_once run_pass delete_all delete_candidates sort_stable keep_if set_of contains
    text_beq principal_user_pattern is_service_principal is_prefixed has_prefix has_suffix
    count_char keys_of desired_from want_all expected_principals delete insert lookup insert_sorted
    trim_left trim_right trim_space any_true equal_fold platform_nfs_enabled tenant_names tenants
    text_lt create_all create_names desired_by_user forget_gone note_create note_delete record_users
    set_user_principals update_state
first_pass = refl

abbrev second_result : PassResult
second_result = record {
  users_considered = 2;
  principals_desired = 1;
  principals_in_kdc = 2;
  created = [];
  deleted = [];
  create_errors = 0;
  delete_errors = 0;
}

second_pass :
    reconcile_once list_kdc realm 9 (some users) synced new_state
    ≡ (synced, record new_state { last_sync_unix = 9 }, ok second_result)
unfolding reconcile_once run_pass delete_all delete_candidates sort_stable keep_if set_of contains
    text_beq principal_user_pattern is_service_principal is_prefixed has_prefix has_suffix
    count_char keys_of desired_from want_all expected_principals delete insert lookup insert_sorted
    trim_left trim_right trim_space any_true equal_fold platform_nfs_enabled tenant_names tenants
    text_lt create_all create_names desired_by_user forget_gone note_create note_delete record_users
    set_user_principals update_state
second_pass = refl

-- A user called like a service gets a principal of that service, which no later pass deletes.
nfs_user :
    (expected_principals (user (codes "nfs") (codes "srv") true) realm ≡ codes "nfs/srv@R" ∷ [])
    × (is_service_principal (codes "nfs/srv@R") ≡ true)
    × (principal_user_pattern (codes "nfs/srv@R") realm ≡ false)
unfolding expected_principals tenants tenant_names insert_sorted trim_left trim_right trim_space
    contains text_beq lookup sort_stable text_lt principal_user_pattern is_service_principal
    is_prefixed has_prefix
nfs_user = (refl, refl, refl)

reconcile_once-deleted_example :
    (is_service_principal (codes "bo/x@R") ≡ false)
    × (principal_user_pattern (codes "bo/x@R") realm ≡ true)
    × (contains before_pass (codes "bo/x@R") ≡ true)
    × (is_wanted realm users (codes "bo/x@R") ≡ false)
unfolding contains text_beq
reconcile_once-deleted_example =
    reconcile_once-deleted list_kdc realm 7 users before_pass before_pass synced old_state new_state
      first_result (codes "bo/x@R") refl first_pass refl

reconcile_once-has_example : contains synced (codes "nfs/a@R") ≡ (
    is_wanted realm users (codes "nfs/a@R")
    || contains before_pass (codes "nfs/a@R")
      && not (principal_user_pattern (codes "nfs/a@R") realm))
reconcile_once-has_example =
    reconcile_once-has list_kdc contains list_kdc-Keeps realm 7 users before_pass before_pass synced
      old_state new_state first_result (codes "nfs/a@R") refl first_pass refl refl

reconcile_once_twice_example :
    (synced ≡ synced) × (second_result.created ≡ []) × (second_result.deleted ≡ [])
reconcile_once_twice_example =
    reconcile_once_twice list_kdc contains list_kdc-Keeps realm 7 9 users before_pass synced
      before_pass synced synced old_state new_state (record new_state { last_sync_unix = 9 })
      first_result second_result refl first_pass refl refl refl second_pass

update_state-none_example :
    lookup (update_state realm 7 old_state users).user_principals (codes "bo") ≡ (
      if contains (map (λ u. u.id) users) (codes "bo")
      then lookup old_state.user_principals (codes "bo")
      else none)
unfolding expected_principals tenants tenant_names insert_sorted trim_left trim_right trim_space
    contains text_beq lookup sort_stable text_lt
update_state-none_example = update_state-none realm 7 old_state users (codes "bo") refl refl

contains-expected_principals_example :
    contains (expected_principals (user (codes "al") (codes " x ") true) realm) (codes "al/x@R") ≡ (
      true
      && not (length (trim_space (codes "al")) == 0)
      && (if length (tenants (user (codes "al") (codes " x ") true)) == 0
          then platform_nfs_enabled (user (codes "al") (codes " x ") true)
            && bare_principal (codes "al") realm =? codes "al/x@R"
          else is_tenant_principal
              (codes "al")
              realm
              (tenants (user (codes "al") (codes " x ") true))
              (codes "al/x@R")))
contains-expected_principals_example =
    contains-expected_principals (user (codes "al") (codes " x ") true) realm (codes "al/x@R")
