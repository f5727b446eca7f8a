-- ===== src/Krb5Sync.antt =====
-- internal/krb5sync: the users of Keycloak are brought to the Kerberos KDC as principals (sync.go), and what was
-- provisioned for each user is recorded (state.go). A pass runs alone: nothing else changes the KDC meanwhile.
pub mod Principals
pub mod Expected
pub mod Pass
pub mod Effect
pub mod Record
use nova_nas.Base.{
  ℕ, ◌+◌, ◌/◌, ◌≡◌, refl, Bool, true, false, not, ◌&&◌, ◌||◌, Option, none, some, List, [], ◌∷◌,
  ◌++◌, Text, codes, text_eq, ◌=?◌, contains, insert, delete, Result, ok, err, length, map, keep_if,
  keys_of, set_of, sort_stable, ltb, ◌==◌, if◌then◌else◌,
}
use nova_nas.Krb5Sync.Principals.{User, expected_principals, principal_user_pattern, text_lt}

-- The KDC behind its API, over the state `S` that it keeps. `create` and `delete` tell whether they succeeded.
pub record Kdc (S : Type 0) : Type 0 where
  pub list_principals : S → Option (List Text)
  pub create_principal : S → Text → S × Bool
  pub delete_principal : S → Text → S × Bool

-- `State`, without the version of its file
pub record State : Type 0 where
  pub last_sync_unix : ℕ
  pub last_event_unix : ℕ
  pub user_principals : List (Text × List Text)

unfoldable pub set_user_principals : State → Text → List Text → State
set_user_principals st uuid principals =
    if length uuid == 0
    then st
    else if length principals == 0
    then record st { user_principals = delete st.user_principals uuid }
    else record st {
      user_principals = insert st.user_principals uuid (sort_stable text_lt principals);
    }

pub record PassResult : Type 0 where
  pub users_considered : ℕ
  pub principals_desired : ℕ
  pub principals_in_kdc : ℕ
  pub created : List Text
  pub deleted : List Text
  pub create_errors : ℕ
  pub delete_errors : ℕ

pub data PassError : Type 0 where
  users_not_listed : PassError
  principals_not_listed : PassError

-- `desired`: each principal with the user it is for.
unfoldable pub want_all : Text → List Text → List (Text × Text) → List (Text × Text)
want_all id [] desired = desired
want_all id (p ∷ ps) desired = want_all id ps (insert desired p id)

unfoldable pub desired_from : Text → List (Text × Text) → List User → List (Text × Text)
desired_from realm desired [] = desired
desired_from realm desired (u ∷ us) =
    desired_from realm (want_all u.id (expected_principals u realm) desired) us

-- `desiredByUser`, without the users that have none.
unfoldable pub desired_by_user :
    Text → List (Text × List Text) → List User → List (Text × List Text)
desired_by_user realm by_user [] = by_user
desired_by_user realm by_user (u ∷ us) =
    let exp = expected_principals u realm in
    desired_by_user realm (if length exp == 0 then by_user else insert by_user u.id exp) us

-- What the loops note of a call that was made, by whether it succeeded.
unfoldable pub note_create : Bool → Text → PassResult → PassResult
note_create true name res = record res { created = res.created ++ name ∷ [] }
note_create false name res = record res { create_errors = res.create_errors + 1 }

unfoldable pub note_delete : Bool → Text → PassResult → PassResult
note_delete true name res = record res { deleted = res.deleted ++ name ∷ [] }
note_delete false name res = record res { delete_errors = res.delete_errors + 1 }

module _ {S : Type 0} (kdc : Kdc S) where
  unfoldable pub create_all : S → PassResult → List Text → S × PassResult
  create_all s res [] = (s, res)
  create_all s res (name ∷ names) =
      let (s', done) = kdc.create_principal s name in
      create_all s' (note_create done name res) names

  unfoldable pub delete_all : S → PassResult → List Text → S × PassResult
  delete_all s res [] = (s, res)
  delete_all s res (name ∷ names) =
      let (s', done) = kdc.delete_principal s name in
      delete_all s' (note_delete done name res) names

-- The principals that are wanted and not there, in order.
unfoldable pub create_names : List Text → List Text → List Text
create_names desired have = sort_stable text_lt (keep_if (λ p. not (contains have p)) desired)

-- The principals that are there, look like a user's, and are not wanted.
unfoldable pub delete_candidates : Text → List Text → List Text → List Text
delete_candidates realm desired have =
    sort_stable text_lt
      (keep_if (λ n. principal_user_pattern n realm && not (contains desired n)) have)

unfoldable pub record_users : State → List (Text × List Text) → State
record_users st [] = st
record_users st ((uid, ps) ∷ by_user) = record_users (set_user_principals st uid ps) by_user

-- The loop over a snapshot of the recorded users, which drops those that are no longer listed.
unfoldable pub forget_gone : List Text → State → List Text → State
forget_gone current st [] = st
forget_gone current st (uid ∷ uids) =
    forget_gone current (if contains current uid then st else set_user_principals st uid []) uids

unfoldable pub update_state : Text → ℕ → State → List User → State
update_state realm now st users =
    let recorded = record_users st (desired_by_user realm [] users) in
    let kept = forget_gone (map (λ u. u.id) users) recorded (keys_of recorded.user_principals) in
    record kept { last_sync_unix = now }

abbrev pub counted : List User → List Text → List Text → PassResult → PassResult
counted users desired listed res = record res {
  users_considered = length users;
  principals_desired = length desired;
  principals_in_kdc = length listed;
}

abbrev pub no_changes : PassResult
no_changes = record {
  users_considered = 0;
  principals_desired = 0;
  principals_in_kdc = 0;
  created = [];
  deleted = [];
  create_errors = 0;
  delete_errors = 0;
}

module _ {S : Type 0} (kdc : Kdc S) (realm : Text) where
  -- `ReconcileOnce` after both lists were read.
  unfoldable pub run_pass : ℕ → List User → List Text → S → State → S × State × PassResult
  run_pass now users listed s st =
      let desired = keys_of (desired_from realm [] users) in
      let have = set_of listed in
      let (s1, res1) = create_all kdc s no_changes (create_names desired have) in
      let (s2, res2) = delete_all kdc s1 res1 (delete_candidates realm desired have) in
      (s2, update_state realm now st users, counted users desired listed res2)

  unfoldable pub reconcile_once :
      ℕ → Option (List User) → S → State → S × State × Result PassError PassResult
  reconcile_once now none s st = (s, st, err users_not_listed)
  reconcile_once now (some users) s st =
      elim (kdc.list_principals s) as (λ _. S × State × Result PassError PassResult) [
        | none ↦ (s, st, err principals_not_listed)
        | some listed ↦ let (s', st', res) = run_pass now users listed s st in (s', st', ok res)
      ]

-- `AdminEvent`, with the fields that are read; the time is in milliseconds.
pub record AdminEvent : Type 0 where
  pub time : ℕ
  pub operation_type : Text
  pub resource_type : Text

unfoldable pub is_user_change : AdminEvent → Bool
is_user_change ev =
    ev.resource_type =? codes "USER"
    && (ev.operation_type =? codes "CREATE"
        || ev.operation_type =? codes "UPDATE"
        || ev.operation_type =? codes "DELETE")

unfoldable pub max_time : ℕ → List AdminEvent → ℕ
max_time latest [] = latest
max_time latest (ev ∷ evs) = max_time (if ltb latest ev.time then ev.time else latest) evs

unfoldable pub any_change : List AdminEvent → Bool
any_change [] = false
any_change (ev ∷ evs) = is_user_change ev || any_change evs

-- What Keycloak answers about the events since the last one, `none` for an error.
unfoldable pub process_admin_events : State → (ℕ → Option (List AdminEvent)) → State × Option Bool
process_admin_events st events_since =
    elim (events_since st.last_event_unix) as (λ _. State × Option Bool) [
      | none ↦ (st, none)
      | some [] ↦ (st, some false)
      | some (ev ∷ evs) ↦
          let latest = max_time 0 (ev ∷ evs) in
          let marked : State = record st { last_event_unix = latest / 1000 } in
          (if ltb 0 latest then marked else st, some (any_change (ev ∷ evs)))
    ]
