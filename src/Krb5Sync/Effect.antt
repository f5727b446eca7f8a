-- ===== src/Krb5Sync/Effect.antt =====
-- What the KDC holds after a pass, and after a second one.
use nova_nas.Base.{
  ◌≡◌, refl, sym, ap, ◌∙◌, ℕ, Bool, true, false, not, ◌&&◌, ◌||◌, some, List, [], ◌∷◌, Text,
  text_eq, =?_refl, ◌=?◌, contains, contains-set_of, ok, arith, keys_of, set_of,
}
use nova_nas.Krb5Sync.Principals.{User, principal_user_pattern}
use nova_nas.Krb5Sync.{
  Kdc, State, PassResult, no_changes, note_create, note_delete, desired_from, create_all,
  delete_all, create_names, delete_candidates, run_pass, reconcile_once,
}
use nova_nas.Krb5Sync.Pass.{
  is_wanted, contains-desired, contains-create_names, contains-delete_candidates,
}

-- A KDC that lists the principals it has, and to which a call that succeeds adds its name or from which it
-- takes it. Nothing is asked of calls that fail.
pub record Keeps {S : Type 0} (kdc : Kdc S) (has : S → Text → Bool) : Type 0 where
  pub lists :
      (s : S) (ns : List Text) (n : Text)
      → kdc.list_principals s ≡ some ns
      → contains ns n ≡ has s n
  pub creates :
      (s : S) (name n : Text)
      → (kdc.create_principal s name).1 ≡ true
      → has (kdc.create_principal s name).0 n ≡ (name =? n || has s n)
  pub deletes :
      (s : S) (name n : Text)
      → (kdc.delete_principal s name).1 ≡ true
      → has (kdc.delete_principal s name).0 n ≡ (not (name =? n) && has s n)

note_create-errors :
    (done : Bool) (name : Text) (res : PassResult)
    → (note_create done name res).create_errors ≡ 0
    → (done ≡ true) × (res.create_errors ≡ 0)
unfolding note_create
note_create-errors true name res h = (refl, h)
note_create-errors false name res h = absurd (omega (arith, h))

note_delete-errors :
    (done : Bool) (name : Text) (res : PassResult)
    → (note_delete done name res).delete_errors ≡ 0
    → (done ≡ true) × (res.delete_errors ≡ 0)
unfolding note_delete
note_delete-errors true name res h = (refl, h)
note_delete-errors false name res h = absurd (omega (arith, h))

note_delete-create_errors :
    (done : Bool) (name : Text) (res : PassResult)
    → (note_delete done name res).create_errors ≡ res.create_errors
unfolding note_delete
note_delete-create_errors true name res = refl
note_delete-create_errors false name res = refl

empty_of_none : (xs : List Text) → ((n : Text) → contains xs n ≡ false) → xs ≡ []
unfolding contains
empty_of_none [] h = refl
empty_of_none (x ∷ xs) h = absurd (ground (arith, h x, =?_refl x))

module _ {S : Type 0} (kdc : Kdc S) where
  delete_all-create_errors :
      (s : S) (res : PassResult) (names : List Text)
      → (delete_all kdc s res names).1.create_errors ≡ res.create_errors
  unfolding delete_all
  delete_all-create_errors s res [] = refl
  delete_all-create_errors s res (name ∷ names) =
      let (s', done) = kdc.delete_principal s name in
      delete_all-create_errors s' (note_delete done name res) names
      ∙ note_delete-create_errors done name res

  module _ (has : S → Text → Bool) (keeps : Keeps kdc has) where
    create_all-has :
        (s : S) (res : PassResult) (names : List Text) (n : Text)
        → (create_all kdc s res names).1.create_errors ≡ 0
        → (has (create_all kdc s res names).0 n ≡ (contains names n || has s n))
          × (res.create_errors ≡ 0)
    unfolding create_all contains
    create_all-has s res [] n h = (refl, h)
    create_all-has s res (name ∷ names) n h =
        let (s', done) = kdc.create_principal s name in
        let (later, fine) = create_all-has s' (note_create done name res) names n h in
        let (worked, before) = note_create-errors done name res fine in
        ground (arith, later, before, keeps.creates s name n worked)

    delete_all-has :
        (s : S) (res : PassResult) (names : List Text) (n : Text)
        → (delete_all kdc s res names).1.delete_errors ≡ 0
        → (has (delete_all kdc s res names).0 n ≡ (not (contains names n) && has s n))
          × (res.delete_errors ≡ 0)
    unfolding delete_all contains
    delete_all-has s res [] n h = (refl, h)
    delete_all-has s res (name ∷ names) n h =
        let (s', done) = kdc.delete_principal s name in
        let (later, fine) = delete_all-has s' (note_delete done name res) names n h in
        let (worked, before) = note_delete-errors done name res fine in
        ground (arith, later, before, keeps.deletes s name n worked)

    module _ (realm : Text) (now : ℕ) (users : List User) (listed : List Text) (s : S)
        (st : State) where
      abbrev desired : List Text
      desired = keys_of (desired_from realm [] users)

      abbrev names : List Text
      names = create_names desired (set_of listed)

      abbrev gone : List Text
      gone = delete_candidates realm desired (set_of listed)

      abbrev half : S × PassResult
      half = create_all kdc s no_changes names

      run_pass-has :
          (n : Text)
          → kdc.list_principals s ≡ some listed
          → (run_pass kdc realm now users listed s st).2.create_errors ≡ 0
          → (run_pass kdc realm now users listed s st).2.delete_errors ≡ 0
          → has (run_pass kdc realm now users listed s st).0 n
            ≡ (is_wanted realm users n || has s n && not (principal_user_pattern n realm))
      unfolding run_pass
      run_pass-has n ls c d = ground (
        arith,
        create_all-has s no_changes names n (sym (delete_all-create_errors half.0 half.1 gone) ∙ c),
        delete_all-has half.0 half.1 gone n d,
        contains-create_names desired (set_of listed) n,
        contains-delete_candidates realm desired (set_of listed) n,
        contains-set_of listed n,
        contains-desired realm users n,
        keeps.lists s listed n ls,
      )

      -- A KDC that holds what is wanted, and nothing else of the form of a user's, is left alone.
      run_pass_settled :
          kdc.list_principals s ≡ some listed
          → ((n : Text)
              → has s n
                ≡ (is_wanted realm users n || has s n && not (principal_user_pattern n realm)))
          → ((run_pass kdc realm now users listed s st).0 ≡ s)
            × ((run_pass kdc realm now users listed s st).2.created ≡ [])
            × ((run_pass kdc realm now users listed s st).2.deleted ≡ [])
      unfolding run_pass create_all delete_all
      run_pass_settled ls settled =
          let no_names : (names ≡ []) = empty_of_none names (λ n. ground (
            arith,
            settled n,
            contains-create_names desired (set_of listed) n,
            contains-set_of listed n,
            contains-desired realm users n,
            keeps.lists s listed n ls,
          )) in
          let none_gone : (gone ≡ []) = empty_of_none gone (λ n. ground (
            arith,
            settled n,
            contains-delete_candidates realm desired (set_of listed) n,
            contains-set_of listed n,
            contains-desired realm users n,
            keeps.lists s listed n ls,
          )) in
          rw (no_names, none_gone) (refl, refl, refl)

module _ {S : Type 0} (kdc : Kdc S) where
  -- A pass that succeeds is `run_pass` on what the KDC lists.
  reconcile_once_ok :
      (realm : Text) (now : ℕ) (users : List User) (listed : List Text) (s s' : S) (st st' : State)
      (res : PassResult)
      → kdc.list_principals s ≡ some listed
      → reconcile_once kdc realm now (some users) s st ≡ (s', st', ok res)
      → ((run_pass kdc realm now users listed s st).0 ≡ s')
        × ((run_pass kdc realm now users listed s st).2 ≡ res)
  unfolding reconcile_once
  reconcile_once_ok realm now users listed s s' st st' res ls h = ground (arith, h, ls)

-- A pass in which no call fails leaves in the KDC exactly the principals that some listed user is to have, and
-- those it had that do not have the form of a user's principal in the realm.
pub reconcile_once-has :
    {S : Type 0} (kdc : Kdc S) (has : S → Text → Bool) (keeps : Keeps kdc has) (realm : Text)
    (now : ℕ) (users : List User) (listed : List Text) (s s' : S) (st st' : State)
    (res : PassResult) (n : Text)
    → kdc.list_principals s ≡ some listed
    → reconcile_once kdc realm now (some users) s st ≡ (s', st', ok res)
    → res.create_errors ≡ 0
    → res.delete_errors ≡ 0
    → has s' n ≡ (is_wanted realm users n || has s n && not (principal_user_pattern n realm))
reconcile_once-has kdc has keeps realm now users listed s s' st st' res n ls h c d =
    let (left, same) = reconcile_once_ok kdc realm now users listed s s' st st' res ls h in
    ap (λ t. has t n) (sym left)
    ∙ run_pass-has kdc has keeps realm now users listed s st n ls
        (ap (λ r. r.create_errors) same ∙ c) (ap (λ r. r.delete_errors) same ∙ d)

-- When no call failed in a pass, a second one with the same users creates nothing, deletes nothing and leaves
-- the KDC as it is.
pub reconcile_once_twice :
    {S : Type 0} (kdc : Kdc S) (has : S → Text → Bool) (keeps : Keeps kdc has) (realm : Text)
    (now now' : ℕ) (users : List User) (listed listed' : List Text) (s s' s'' : S)
    (st st' st'' : State) (res res' : PassResult)
    → kdc.list_principals s ≡ some listed
    → reconcile_once kdc realm now (some users) s st ≡ (s', st', ok res)
    → res.create_errors ≡ 0
    → res.delete_errors ≡ 0
    → kdc.list_principals s' ≡ some listed'
    → reconcile_once kdc realm now' (some users) s' st' ≡ (s'', st'', ok res')
    → (s'' ≡ s') × (res'.created ≡ []) × (res'.deleted ≡ [])
reconcile_once_twice kdc has keeps realm now now' users listed listed' s s' s'' st st' st'' res res'
      ls h c d ls' h' =
    let (left, same) = reconcile_once_ok kdc realm now' users listed' s' s'' st' st'' res' ls' h' in
    let (still, none_made, none_gone) =
      run_pass_settled kdc has keeps realm now' users listed' s' st' ls' (λ n. ground (
        arith,
        reconcile_once-has kdc has keeps realm now users listed s s' st st' res n ls h c d,
      )) in
    (
      sym left ∙ still,
      ap (λ r. r.created) (sym same) ∙ none_made,
      ap (λ r. r.deleted) (sym same) ∙ none_gone,
    )
