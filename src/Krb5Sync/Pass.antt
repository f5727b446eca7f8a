-- ===== src/Krb5Sync/Pass.antt =====
-- What a pass creates and deletes, whatever the KDC answers.
use nova_nas.Base.{
  ◌≡◌, refl, ap, ◌∙◌, ℕ, Bool, true, false, not, ◌&&◌, ◌||◌, some, List, [], ◌∷◌, Text, text_eq,
  ◌=?◌, contains, contains-append, ok, arith, keep_if, contains-sort_stable, contains-keep_if,
  contains-set_of, contains-keys_of-insert, keys_of, insert, set_of,
}
use nova_nas.Krb5Sync.Principals.{
  User, text_lt, expected_principals, is_service_principal, principal_user_pattern,
}
use nova_nas.Krb5Sync.{
  Kdc, State, PassResult, note_create, note_delete, no_changes, want_all, desired_from, create_all,
  delete_all, create_names, delete_candidates, run_pass, reconcile_once,
}

-- Some user is to have the principal.
abbrev pub is_wanted : Text → List User → Text → Bool
is_wanted realm [] n = false
is_wanted realm (u ∷ us) n = contains (expected_principals u realm) n || is_wanted realm us n

want_all_lem :
    (id : Text) (ps : List Text) (desired : List (Text × Text)) (n : Text)
    → contains (keys_of (want_all id ps desired)) n
      ≡ (contains ps n || contains (keys_of desired) n)
unfolding want_all contains
want_all_lem id [] desired n = refl
want_all_lem id (p ∷ ps) desired n =
    ground
      (arith, want_all_lem id ps (insert desired p id) n, contains-keys_of-insert desired p id n)

desired_from_lem :
    (realm : Text) (desired : List (Text × Text)) (users : List User) (n : Text)
    → contains (keys_of (desired_from realm desired users)) n
      ≡ (is_wanted realm users n || contains (keys_of desired) n)
unfolding desired_from
desired_from_lem realm desired [] n = refl
desired_from_lem realm desired (u ∷ us) n = ground (
  arith,
  desired_from_lem realm (want_all u.id (expected_principals u realm) desired) us n,
  want_all_lem u.id (expected_principals u realm) desired n,
)

-- `desired` has the principals that some user is to have, and no other.
pub contains-desired :
    (realm : Text) (users : List User) (n : Text)
    → contains (keys_of (desired_from realm [] users)) n ≡ is_wanted realm users n
unfolding contains keys_of
contains-desired realm users n = ground (arith, desired_from_lem realm [] users n)

pub contains-create_names :
    (desired have : List Text) (n : Text)
    → contains (create_names desired have) n ≡ (not (contains have n) && contains desired n)
unfolding create_names
contains-create_names desired have n =
    contains-sort_stable text_lt (keep_if (λ p. not (contains have p)) desired) n
    ∙ contains-keep_if (λ p. not (contains have p)) desired n

pub contains-delete_candidates :
    (realm : Text) (desired have : List Text) (n : Text)
    → contains (delete_candidates realm desired have) n
      ≡ ((principal_user_pattern n realm && not (contains desired n)) && contains have n)
unfolding delete_candidates
contains-delete_candidates realm desired have n =
    contains-sort_stable text_lt (keep_if _ have) n ∙ contains-keep_if _ have n

-- A name that looks like a user's is no service's.
pattern-service :
    (n realm : Text) → principal_user_pattern n realm ≡ true → is_service_principal n ≡ false
unfolding principal_user_pattern
pattern-service n realm h = ground arith

note_create-created :
    (done : Bool) (name : Text) (res : PassResult) (n : Text)
    → contains (note_create done name res).created n ≡ true
    → (contains res.created n || name =? n) ≡ true
unfolding note_create contains
note_create-created true name res n h = ground (arith, contains-append res.created (name ∷ []) n)
note_create-created false name res n h = ground (arith, h)

note_delete-deleted :
    (done : Bool) (name : Text) (res : PassResult) (n : Text)
    → contains (note_delete done name res).deleted n ≡ true
    → (contains res.deleted n || name =? n) ≡ true
unfolding note_delete contains
note_delete-deleted true name res n h = ground (arith, contains-append res.deleted (name ∷ []) n)
note_delete-deleted false name res n h = ground (arith, h)

note_create-deleted :
    (done : Bool) (name : Text) (res : PassResult)
    → (note_create done name res).deleted ≡ res.deleted
unfolding note_create
note_create-deleted true name res = refl
note_create-deleted false name res = refl

note_delete-created :
    (done : Bool) (name : Text) (res : PassResult)
    → (note_delete done name res).created ≡ res.created
unfolding note_delete
note_delete-created true name res = refl
note_delete-created false name res = refl

module _ {S : Type 0} (kdc : Kdc S) where
  create_all-created :
      (s : S) (res : PassResult) (names : List Text) (n : Text)
      → contains (create_all kdc s res names).1.created n ≡ true
      → (contains res.created n || contains names n) ≡ true
  unfolding create_all contains
  create_all-created s res [] n h = ground (arith, h)
  create_all-created s res (name ∷ names) n h =
      let (s', done) = kdc.create_principal s name in
      ground (
        arith,
        note_create-created done name res n,
        create_all-created s' (note_create done name res) names n h,
      )

  delete_all-deleted :
      (s : S) (res : PassResult) (names : List Text) (n : Text)
      → contains (delete_all kdc s res names).1.deleted n ≡ true
      → (contains res.deleted n || contains names n) ≡ true
  unfolding delete_all contains
  delete_all-deleted s res [] n h = ground (arith, h)
  delete_all-deleted s res (name ∷ names) n h =
      let (s', done) = kdc.delete_principal s name in
      ground (
        arith,
        note_delete-deleted done name res n,
        delete_all-deleted s' (note_delete done name res) names n h,
      )

  -- Neither loop writes the other's part of the result.
  create_all-deleted :
      (s : S) (res : PassResult) (names : List Text)
      → (create_all kdc s res names).1.deleted ≡ res.deleted
  unfolding create_all
  create_all-deleted s res [] = refl
  create_all-deleted s res (name ∷ names) =
      let (s', done) = kdc.create_principal s name in
      create_all-deleted s' (note_create done name res) names ∙ note_create-deleted done name res

  delete_all-created :
      (s : S) (res : PassResult) (names : List Text)
      → (delete_all kdc s res names).1.created ≡ res.created
  unfolding delete_all
  delete_all-created s res [] = refl
  delete_all-created s res (name ∷ names) =
      let (s', done) = kdc.delete_principal s name in
      delete_all-created s' (note_delete done name res) names ∙ note_delete-created done name res

  module _ (realm : Text) (now : ℕ) (users : List User) (listed : List Text) (s : S)
      (st : State) where
    abbrev desired : List Text
    desired = keys_of (desired_from realm [] users)

    abbrev wanted_gone : S × PassResult
    wanted_gone = create_all kdc s no_changes (create_names desired (set_of listed))

    run_pass-created :
        (n : Text)
        → contains (run_pass kdc realm now users listed s st).2.created n ≡ true
        → (is_wanted realm users n ≡ true) × (contains listed n ≡ false)
    unfolding run_pass contains
    run_pass-created n h = ground (
      arith,
      h,
      ap (λ l. contains l n)
          (delete_all-created wanted_gone.0 wanted_gone.1
            (delete_candidates realm desired (set_of listed))),
      create_all-created s no_changes (create_names desired (set_of listed)) n,
      contains-create_names desired (set_of listed) n,
      contains-set_of listed n,
      contains-desired realm users n,
    )

    run_pass-deleted :
        (n : Text)
        → contains (run_pass kdc realm now users listed s st).2.deleted n ≡ true
        → (principal_user_pattern n realm ≡ true)
          × (contains listed n ≡ true)
          × (is_wanted realm users n ≡ false)
    unfolding run_pass contains
    run_pass-deleted n h = ground (
      arith,
      h,
      ap (λ l. contains l n)
          (create_all-deleted s no_changes (create_names desired (set_of listed))),
      delete_all-deleted wanted_gone.0 wanted_gone.1
          (delete_candidates realm desired (set_of listed)) n,
      contains-delete_candidates realm desired (set_of listed) n,
      contains-set_of listed n,
      contains-desired realm users n,
    )

-- Every principal that a pass deletes was listed by the KDC, belongs to no service, has the form of a user's
-- principal in the realm, and is one that no listed user is to have.
pub reconcile_once-deleted :
    {S : Type 0} (kdc : Kdc S) (realm : Text) (now : ℕ) (users : List User) (listed : List Text)
    (s s' : S) (st st' : State) (res : PassResult) (n : Text)
    → kdc.list_principals s ≡ some listed
    → reconcile_once kdc realm now (some users) s st ≡ (s', st', ok res)
    → contains res.deleted n ≡ true
    → (is_service_principal n ≡ false)
      × (principal_user_pattern n realm ≡ true)
      × (contains listed n ≡ true)
      × (is_wanted realm users n ≡ false)
unfolding reconcile_once
reconcile_once-deleted kdc realm now users listed s s' st st' res n ls h d =
    let same : ((run_pass kdc realm now users listed s st).2 ≡ res) = ground (arith, h, ls) in
    let (p, l, w) =
      run_pass-deleted kdc realm now users listed s st n
        (ap (λ r. contains r.deleted n) same ∙ d) in
    (pattern-service n realm p, p, l, w)
