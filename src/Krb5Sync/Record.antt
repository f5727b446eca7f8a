-- ===== src/Krb5Sync/Record.antt =====
-- What a pass records for each user.
use nova_nas.Base.{
  ◌≡◌, refl, ap, ℕ, Bool, true, false, not, ◌&&◌, ◌||◌, none, List, [], ◌∷◌, Text, text_eq, ◌=?◌,
  contains, lookup, lookup-insert, lookup-delete, arith, keys_of, map, length, ◌==◌, if◌then◌else◌,
  Bool-cases, inl, inr, sort_stable, insert,
}
use nova_nas.Krb5Sync.Principals.{User, expected_principals, text_lt}
use nova_nas.Krb5Sync.{
  State, set_user_principals, desired_by_user, record_users, forget_gone, update_state,
}

-- No user with the id is to have a principal.
abbrev pub expects_none : Text → List User → Text → Bool
expects_none realm [] id = true
expects_none realm (u ∷ us) id =
    (not (u.id =? id) || length (expected_principals u realm) == 0) && expects_none realm us id

desired_by_user-none :
    (realm : Text) (by_user : List (Text × List Text)) (users : List User) (id : Text)
    → lookup by_user id ≡ none
    → expects_none realm users id ≡ true
    → lookup (desired_by_user realm by_user users) id ≡ none
unfolding desired_by_user
desired_by_user-none realm by_user [] id h e = h
desired_by_user-none realm by_user (u ∷ us) id h e =
    let exp = expected_principals u realm in
    desired_by_user-none realm (if length exp == 0 then by_user else insert by_user u.id exp) us id
      (ground (arith, h, e, lookup-insert by_user u.id id exp)) (ground (arith, e))

set_user_principals-other :
    (st : State) (uid : Text) (ps : List Text) (id : Text)
    → (uid =? id) ≡ false
    → lookup (set_user_principals st uid ps).user_principals id ≡ lookup st.user_principals id
unfolding set_user_principals
set_user_principals-other st uid ps id h = ground (
  arith,
  lookup-insert st.user_principals uid id (sort_stable text_lt ps),
  lookup-delete st.user_principals uid id,
)

set_user_principals-nil :
    (st : State) (uid id : Text)
    → (length id == 0) ≡ false
    → lookup (set_user_principals st uid []).user_principals id
      ≡ (if uid =? id then none else lookup st.user_principals id)
unfolding set_user_principals
set_user_principals-nil st uid id h =
    ground (arith, text_eq.beq_iff uid id, lookup-delete st.user_principals uid id)

record_users-none :
    (st : State) (by_user : List (Text × List Text)) (id : Text)
    → lookup by_user id ≡ none
    → lookup (record_users st by_user).user_principals id ≡ lookup st.user_principals id
unfolding record_users lookup
record_users-none st [] id h = refl
record_users-none st ((uid, ps) ∷ by_user) id h = ground (
  arith,
  h,
  record_users-none (set_user_principals st uid ps) by_user id,
  set_user_principals-other st uid ps id,
)

forget_gone-lookup :
    (current : List Text) (st : State) (uids : List Text) (id : Text)
    → (length id == 0) ≡ false
    → lookup (forget_gone current st uids).user_principals id ≡ (
        if contains uids id && not (contains current id)
        then none
        else lookup st.user_principals id)
unfolding forget_gone contains
forget_gone-lookup current st [] id h = refl
forget_gone-lookup current st (uid ∷ uids) id h = elim (Bool-cases (uid =? id)) [
  | inl same ↦ ground (
    arith,
    same,
    ap (contains current) ((text_eq.beq_iff uid id).0 same),
    set_user_principals-nil st uid id h,
    forget_gone-lookup current st uids id h,
    forget_gone-lookup current (set_user_principals st uid []) uids id h,
  )
  | inr other ↦ ground (
    arith,
    other,
    set_user_principals-nil st uid id h,
    forget_gone-lookup current st uids id h,
    forget_gone-lookup current (set_user_principals st uid []) uids id h,
  )
]

lookup_of_missing :
    (m : List (Text × List Text)) (id : Text) → contains (keys_of m) id ≡ false → lookup m id ≡ none
unfolding lookup contains keys_of
lookup_of_missing [] id h = refl
lookup_of_missing ((k, v) ∷ m) id h = ground (arith, lookup_of_missing m id)

-- For an id under which no listed user is to have a principal: the record of a user who is not listed any more
-- is dropped, but that of a user who is still listed stays what it was, also when the user was disabled and the
-- principals in it are gone.
pub update_state-none :
    (realm : Text) (now : ℕ) (st : State) (users : List User) (id : Text)
    → (length id == 0) ≡ false
    → expects_none realm users id ≡ true
    → lookup (update_state realm now st users).user_principals id
      ≡ (if contains (map (λ u. u.id) users) id then lookup st.user_principals id else none)
unfolding update_state lookup
update_state-none realm now st users id h e =
    let recorded = record_users st (desired_by_user realm [] users) in
    ground (
      arith,
      record_users-none st (desired_by_user realm [] users) id
          (desired_by_user-none realm [] users id refl e),
      forget_gone-lookup (map (λ u. u.id) users) recorded (keys_of recorded.user_principals) id h,
      lookup_of_missing recorded.user_principals id,
    )
