-- ===== src/NotifyCenter/Record.antt =====
-- What `RecordEvent` does to the notifications and the bus.
use nova_nas.Base.{
  leb, ◌≡◌, refl, sym, ap, ◌∙◌, inl, inr, ℕ, ◌≤◌, ◌+◌, Bool, true, ◌&&◌, none, some, List, [], ◌∷◌,
  ◌++◌, Text, text_eq, =?_refl, nat_eq, ok, length, arith, Option-cases,
}
use nova_nas.NotifyCenter.{
  Event, RecordInput, Bus, bus_buffer, deliver, deliver_all, publish, Center, find_row,
  insert_notification, row_of_input, refused, record_event,
}

find_row-append :
    (rows : List Event) (ev : Event)
    → find_row rows ev.source ev.source_id ≡ none
    → find_row (rows ++ ev ∷ []) ev.source ev.source_id ≡ some ev
unfolding find_row
find_row-append [] ev h = ground (arith, =?_refl ev.source, =?_refl ev.source_id)
find_row-append (r ∷ rs) ev h = ground (arith, h, find_row-append rs ev)

insert_notification-find_row :
    (rows : List Event) (ev : Event)
    → find_row (insert_notification rows ev).0 ev.source ev.source_id
      ≡ some (insert_notification rows ev).1
unfolding insert_notification
insert_notification-find_row rows ev = elim (Option-cases (find_row rows ev.source ev.source_id)) [
  | inr (old, there) ↦ ground (arith, there)
  | inl new ↦ ground (arith, new, find_row-append rows ev new)
]

record_event_ok :
    (c c' : Center) (id : Text) (now : ℕ) (input : RecordInput) (ev : Event)
    → record_event none c id now input ≡ (c', ok ev)
    → find_row c'.rows input.source input.source_id ≡ some ev
unfolding record_event
record_event_ok c c' id now input ev h = elim (Option-cases (refused input)) [
  | inr (e, bad) ↦ absurd (ground (arith, h, bad))
  | inl fine ↦
      let kept = insert_notification-find_row c.rows (row_of_input id now input) in
      let inserted = insert_notification c.rows (row_of_input id now input) in
      let rows : (inserted.0 ≡ c'.rows) = ground (arith, h, fine) in
      let same : (inserted.1 ≡ ev) = ground (arith, h, fine) in
      ap (λ rs. find_row rs input.source input.source_id) (sym rows) ∙ kept ∙ ap some same
]

record_event_old :
    (c c' : Center) (id : Text) (now : ℕ) (input : RecordInput) (old ev : Event)
    → find_row c.rows input.source input.source_id ≡ some old
    → record_event none c id now input ≡ (c', ok ev)
    → (c'.rows ≡ c.rows) × (ev ≡ old)
unfolding record_event insert_notification
record_event_old c c' id now input old ev there h = elim (Option-cases (refused input)) [
  | inr (e, bad) ↦ absurd (ground (arith, h, bad))
  | inl fine ↦ ground (arith, h, fine, there)
]

-- Recording an event again, with the same source and the same id there, adds no row and returns the row of the
-- first recording, whatever else has changed in it.
pub record_event_twice :
    (c : Center) (id id' : Text) (now now' : ℕ) (input input' : RecordInput) (first second : Event)
    (c' c'' : Center)
    → input.source ≡ input'.source
    → input.source_id ≡ input'.source_id
    → record_event none c id now input ≡ (c', ok first)
    → record_event none c' id' now' input' ≡ (c'', ok second)
    → (c''.rows ≡ c'.rows) × (second ≡ first)
record_event_twice c id id' now now' input input' first second c' c'' s i h h' =
    let there : (find_row c'.rows input'.source input'.source_id ≡ some first) =
      rw (sym s, sym i) (record_event_ok c c' id now input first h) in
    record_event_old c' c'' id' now' input' first second there h'

abbrev all_within : List (ℕ × List Event) → Bool
all_within [] = true
all_within ((id, waiting) ∷ rest) = leb (length waiting) bus_buffer && all_within rest

length_snoc : (waiting : List Event) (ev : Event) → length (waiting ++ ev ∷ []) ≡ length waiting + 1
length_snoc [] ev = refl
length_snoc (w ∷ ws) ev = ground (arith, length_snoc ws ev)

deliver-length :
    (ev : Event) (waiting : List Event)
    → length waiting ≤ bus_buffer
    → length (deliver ev waiting) ≤ bus_buffer
unfolding deliver
deliver-length ev waiting h = ground (arith, h, length_snoc waiting ev)

deliver_all_within :
    (ev : Event) (subs : List (ℕ × List Event))
    → all_within subs ≡ true
    → all_within (deliver_all ev subs) ≡ true
unfolding deliver_all
deliver_all_within ev [] h = refl
deliver_all_within ev ((id, waiting) ∷ rest) h =
    ground (arith, h, deliver-length ev waiting, deliver_all_within ev rest)

-- No subscriber ever has more events waiting than its buffer holds.
pub publish_within :
    (b : Bus) (ev : Event)
    → all_within b.subscribers ≡ true
    → all_within (publish b ev).subscribers ≡ true
unfolding publish
publish_within b ev h = deliver_all_within ev b.subscribers h
