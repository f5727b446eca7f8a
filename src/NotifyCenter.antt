-- ===== src/NotifyCenter.antt =====
-- internal/notifycenter: the notifications, what each user has done with them, and the bus that brings new ones to the
-- connected clients. The statements of internal/store/queries/notifications.sql that write are part of the model.
-- Times are numbers.
pub mod Aggregator
pub mod Listing
pub mod Record
use nova_nas.Base.{
  ℤ, pos, ltb_ℤ, ℕ, ◌+◌, Bool, true, false, not, ◌&&◌, ◌||◌, Option, none, some, List, [], ◌∷◌,
  ◌++◌, Text, codes, text_eq, ◌=?◌, nat_eq, insert, delete, lookup, Result, ok, err, ltb, length,
  ◌==◌, trim_space, contains, if◌then◌else◌,
}

abbrev pub source_alertmanager : Text
source_alertmanager = codes "alertmanager"

abbrev pub source_jobs : Text
source_jobs = codes "jobs"

abbrev pub source_audit : Text
source_audit = codes "audit"

abbrev pub source_system : Text
source_system = codes "system"

-- `Source.Valid`
unfoldable pub is_source : Text → Bool
is_source s = contains (source_alertmanager ∷ source_jobs ∷ source_audit ∷ source_system ∷ []) s

abbrev pub severity_info : Text
severity_info = codes "info"

abbrev pub severity_warning : Text
severity_warning = codes "warning"

abbrev pub severity_critical : Text
severity_critical = codes "critical"

-- `Severity.Valid`
unfoldable pub is_severity : Text → Bool
is_severity s = contains (severity_info ∷ severity_warning ∷ severity_critical ∷ []) s

pub record Event : Type 0 where
  pub id : Text
  pub tenant_id : Option Text
  pub source : Text
  pub source_id : Text
  pub severity : Text
  pub title : Text
  pub body : Text
  pub link : Text
  pub created_at : ℕ

pub record RecordInput : Type 0 where
  pub source : Text
  pub source_id : Text
  pub severity : Text
  pub title : Text
  pub body : Text
  pub link : Text
  pub tenant_id : Text

-- A row of notification_state.
pub record UserState : Type 0 where
  pub read_at : Option ℕ
  pub dismissed_at : Option ℕ
  pub snoozed_until : Option ℕ

abbrev pub untouched : UserState
untouched = record { read_at = none; dismissed_at = none; snoozed_until = none }

-- The events that wait for each subscriber.
pub record Bus : Type 0 where
  pub subscribers : List (ℕ × List Event)
  pub next : ℕ

abbrev pub bus_buffer : ℕ
bus_buffer = 16

-- `Subscribe`, with the id that its cleanup takes away again.
unfoldable pub subscribe : Bus → Bus × ℕ
subscribe b = (record { subscribers = insert b.subscribers b.next []; next = b.next + 1 }, b.next)

unfoldable pub unsubscribe : Bus → ℕ → Bus
unsubscribe b id = record b { subscribers = delete b.subscribers id }

-- A subscriber whose buffer is full does not get the event.
unfoldable pub deliver : Event → List Event → List Event
deliver ev waiting = if ltb (length waiting) bus_buffer then waiting ++ ev ∷ [] else waiting

unfoldable pub deliver_all : Event → List (ℕ × List Event) → List (ℕ × List Event)
deliver_all ev [] = []
deliver_all ev ((id, waiting) ∷ rest) = (id, deliver ev waiting) ∷ deliver_all ev rest

unfoldable pub publish : Bus → Event → Bus
publish b ev = record b { subscribers = deliver_all ev b.subscribers }

-- The notifications, the state of each for each user, and the bus.
pub record Center : Type 0 where
  pub rows : List Event
  pub states : List (Text × List (Text × UserState))
  pub bus : Bus

pub data RecordError : Type 0 where
  bad_source bad_severity no_source_id no_title : RecordError
  store_failed : Text → RecordError

-- The row of a source and the id of an event there.
unfoldable pub find_row : List Event → Text → Text → Option Event
find_row [] source source_id = none
find_row (r ∷ rs) source source_id =
    if r.source =? source && r.source_id =? source_id then some r else find_row rs source source_id

-- `InsertNotification`: a row that is there is returned as it is.
unfoldable pub insert_notification : List Event → Event → List Event × Event
insert_notification rows ev = elim (find_row rows ev.source ev.source_id) [
  | some old ↦ (rows, old)
  | none ↦ (rows ++ ev ∷ [], ev)
]

abbrev pub row_of_input : Text → ℕ → RecordInput → Event
row_of_input id now input = record {
  id = id;
  tenant_id =
      if length (trim_space input.tenant_id) == 0 then none else some (trim_space input.tenant_id);
  source = input.source;
  source_id = input.source_id;
  severity = input.severity;
  title = input.title;
  body = input.body;
  link = input.link;
  created_at = now;
}

-- The tests of `RecordEvent`.
unfoldable pub refused : RecordInput → Option RecordError
refused input =
    if not (is_source input.source)
    then some bad_source
    else if not (is_severity input.severity)
    then some bad_severity
    else if length (trim_space input.source_id) == 0
    then some no_source_id
    else if length (trim_space input.title) == 0
    then some no_title
    else none

-- `RecordEvent`, given the new id, the time, and how the store fails, if it does.
unfoldable pub record_event :
    Option Text → Center → Text → ℕ → RecordInput → Center × Result RecordError Event
record_event fails c id now input =
    let (rows', ev) = insert_notification c.rows (row_of_input id now input) in
    elim (refused input) as (λ _. Center × Result RecordError Event) [
      | some e ↦ (c, err e)
      | none ↦ elim fails as (λ _. Center × Result RecordError Event) [
        | some msg ↦ (c, err (store_failed msg))
        | none ↦ (record c { rows = rows'; bus = publish c.bus ev }, ok ev)
      ]
    ]
