-- ===== src/NotifyCenter/Listing.antt =====
-- What users do with notifications, and which of them a user is shown.
use nova_nas.Base.{
  ℕ, ℤ, pos, ltb_ℤ, Bool, true, false, not, ◌&&◌, Option, none, some, List, [], ◌∷◌, Text, text_eq,
  insert, lookup, ltb, if◌then◌else◌,
}
use nova_nas.NotifyCenter.{Event, UserState, untouched, Center}

abbrev pub state_of : Center → Text → Text → UserState
state_of c user id = elim (lookup c.states user) as (λ _. UserState) [
  | none ↦ untouched
  | some states ↦ elim (lookup states id) [ none ↦ untouched | some st ↦ st ]
]

abbrev pub set_state : Center → Text → Text → UserState → Center
set_state c user id st = record c {
  states =
      insert c.states user
        (insert (elim (lookup c.states user) [ none ↦ [] | some states ↦ states ]) id st);
}

-- `COALESCE(a, b)`
abbrev pub coalesce : Option ℕ → ℕ → Option ℕ
coalesce none now = some now
coalesce (some t) now = some t

-- `parsePGUUID` on an id, and the change for the id that it makes; nothing stands for an invalid id. The store
-- does not fail here.
abbrev pub with_id : (Text → Option Text) → Text → (Text → Center) → Option Center
with_id parse id change = elim (parse id) as (λ _. Option Center) [
  | none ↦ none
  | some i ↦ some (change i)
]

unfoldable pub mark_read : (Text → Option Text) → Center → Text → Text → ℕ → Option Center
mark_read parse c user id now = with_id parse id (λ i.
    let st = state_of c user i in
    set_state c user i (record st { read_at = coalesce st.read_at now }))

-- What is dismissed is read.
unfoldable pub mark_dismissed : (Text → Option Text) → Center → Text → Text → ℕ → Option Center
mark_dismissed parse c user id now = with_id parse id (λ i.
    let st = state_of c user i in
    set_state c user i (record st { dismissed_at = some now; read_at = coalesce st.read_at now }))

-- `until` is nothing for a zero time.
unfoldable pub snooze : (Text → Option Text) → Center → Text → Text → Option ℕ → Option Center
snooze parse c user id until =
    with_id parse id
      (λ i. set_state c user i (record (state_of c user i) { snoozed_until = until }))

-- `ListFilter`, the part that is applied in memory.
pub record ListFilter : Type 0 where
  pub only_unread : Bool
  pub include_dismissed : Bool
  pub include_snoozed : Bool
  pub only_snoozed : Bool

abbrev pub is_set : Option ℕ → Bool
is_set none = false
is_set (some _) = true

abbrev pub snoozed_at : UserState → ℕ → Bool
snoozed_at st now = elim st.snoozed_until [ none ↦ false | some t ↦ ltb now t ]

unfoldable pub apply_filter : UserState → ListFilter → ℕ → Bool
apply_filter st f now =
    if f.only_unread && is_set st.read_at
    then false
    else if not f.include_dismissed && is_set st.dismissed_at
    then false
    else if f.only_snoozed
    then snoozed_at st now
    else not (not f.include_snoozed && snoozed_at st now)

-- The limit of `ListForUser`.
unfoldable pub list_limit : ℤ → ℤ
list_limit n = if ltb_ℤ (pos 0) n && not (ltb_ℤ (pos 500) n) then n else pos 50

-- The loop of `ListForUser` over the rows that the store lists.
unfoldable pub visible : Center → Text → ListFilter → ℕ → List Event → List Event
visible c user f now [] = []
visible c user f now (ev ∷ rows) =
    let rest = visible c user f now rows in
    if apply_filter (state_of c user ev.id) f now then ev ∷ rest else rest
