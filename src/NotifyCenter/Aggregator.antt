-- ===== src/NotifyCenter/Aggregator.antt =====
-- internal/notifycenter/aggregator.go: one poll of each source. What a source answers is an argument, and a cursor is
-- the time of the newest entry seen.
use nova_nas.Base.{
  inl, inr, ℕ, ◌≤◌, ◌+◌, leb, Bool, true, false, ◌&&◌, ◌||◌, Option, none, some, List, [], ◌∷◌,
  ◌++◌, Text, codes, text_eq, ◌=?◌, lookup, Result, ok, err, ltb, length, ◌==◌, trim_space,
  has_prefix, map, if◌then◌else◌, arith, Bool-cases,
}
use nova_nas.NotifyCenter.{
  Center, RecordInput, record_event, source_alertmanager, source_jobs, source_audit, severity_info,
  severity_warning, severity_critical,
}

-- An entry of a source: its time, where it has one, and what is recorded for it.
abbrev pub Entry : Type 0
Entry = Option ℕ × RecordInput

-- What a recording is given: how the store fails for an id of the source, and the new id.
pub record Recording : Type 0 where
  pub fails : Text → Option Text
  pub new_id : Text → Text
  pub now : ℕ

abbrev pub later : ℕ → ℕ → ℕ
later a b = if ltb a b then b else a

-- The loop that the three polls share. An error of a recording is logged.
unfoldable pub poll_entries : Recording → ℕ → List Entry → Center → ℕ → Center × ℕ
poll_entries rec cursor [] c newest = (c, newest)
poll_entries rec cursor ((none, input) ∷ es) c newest = poll_entries rec cursor es c newest
poll_entries rec cursor ((some t, input) ∷ es) c newest = elim (ltb cursor t) [
  | false ↦ poll_entries rec cursor es c newest
  | true ↦
      let c' =
        (record_event (rec.fails input.source_id) c (rec.new_id input.source_id) rec.now input).0 in
      poll_entries rec cursor es c' (later newest t)
]

-- A poll of a source that answers: the new cursor is kept for the next poll.
unfoldable pub poll : Recording → Result Text (List Entry) → Center → ℕ → Center × ℕ
poll rec (err _) c cursor = (c, cursor)
poll rec (ok es) c cursor = poll_entries rec cursor es c cursor

-- `strings.ToLower`, as far as it makes ASCII letters: the capitals, and the two other letters with a small
-- letter in ASCII. The rest stays, and is in none of the words looked for.
abbrev pub lower_char : ℕ → ℕ
lower_char c =
    if leb b'A' c && leb c b'Z'
    then c + 32
    else if c == 0x130
    then b'i'
    else if c == 0x212a
    then b'k'
    else c

unfoldable pub to_lower : Text → Text
to_lower [] = []
to_lower (c ∷ s) = lower_char c ∷ to_lower s

-- `strings.Contains(s, part)`
unfoldable pub has_part : Text → Text → Bool
has_part [] part = has_prefix [] part
has_part (c ∷ s) part = has_prefix (c ∷ s) part || has_part s part

unfoldable pub map_alert_severity : Text → Text
map_alert_severity label =
    let l = to_lower (trim_space label) in
    if l =? codes "critical" || l =? codes "page"
    then severity_critical
    else if l =? codes "warning"
    then severity_warning
    else severity_info

unfoldable pub is_auth_failure : Text → Bool
is_auth_failure action =
    let a = to_lower action in
    has_part a (codes "auth") || has_part a (codes "login") || has_part a (codes "token")

pub record Alert : Type 0 where
  pub fingerprint : Text
  pub starts_at : ℕ
  pub labels : List (Text × Text)
  pub annotations : List (Text × Text)
  pub generator_url : Text

-- A label or an annotation, empty where it is missing.
abbrev pub text_at : List (Text × Text) → Text → Text
text_at m k = elim (lookup m k) [ none ↦ [] | some v ↦ v ]

abbrev pub or_else : Text → Text → Text
or_else s t = if length s == 0 then t else s

unfoldable pub alert_entry : Alert → Entry
alert_entry a = (
  some a.starts_at,
  record {
    source = source_alertmanager;
    source_id = a.fingerprint;
    severity = map_alert_severity (text_at a.labels (codes "severity"));
    title = or_else (text_at a.labels (codes "alertname")) (codes "Alert");
    body =
        or_else (text_at a.annotations (codes "description"))
          (text_at a.annotations (codes "summary"));
    link = a.generator_url;
    tenant_id = [];
  },
)

pub record FailedJob : Type 0 where
  pub id : Text
  pub kind : Text
  pub target : Text
  pub error : Option Text
  pub finished_at : Option ℕ

unfoldable pub job_entry : FailedJob → Entry
job_entry j = (
  j.finished_at,
  record {
    source = source_jobs;
    source_id = j.id;
    severity = severity_warning;
    title = codes "Job failed: " ++ j.kind;
    body = elim j.error [
      | none ↦ j.target
      | some e ↦ if length e == 0 then j.target else trim_space e
    ];
    link = codes "/jobs/" ++ j.id;
    tenant_id = [];
  },
)

pub record AuditRow : Type 0 where
  pub id : Text
  pub action : Text
  pub actor : Option Text
  pub target : Text
  pub ts : Option ℕ

unfoldable pub audit_entry : AuditRow → Entry
audit_entry r = (
  r.ts,
  record {
    source = source_audit;
    source_id = r.id;
    severity = if is_auth_failure r.action then severity_warning else severity_info;
    title = codes "Rejected: " ++ r.action;
    body = trim_space ((elim r.actor as (λ _. Text) [ none ↦ [] | some a ↦ a ]) ++ b' ' ∷ r.target);
    link = codes "/audit?id=" ++ r.id;
    tenant_id = [];
  },
)

unfoldable pub poll_alertmanager : Recording → Result Text (List Alert) → Center → ℕ → Center × ℕ
poll_alertmanager rec (err msg) c cursor = poll rec (err msg) c cursor
poll_alertmanager rec (ok alerts) c cursor = poll rec (ok (map alert_entry alerts)) c cursor

unfoldable pub poll_jobs : Recording → Result Text (List FailedJob) → Center → ℕ → Center × ℕ
poll_jobs rec (err msg) c cursor = poll rec (err msg) c cursor
poll_jobs rec (ok jobs) c cursor = poll rec (ok (map job_entry jobs)) c cursor

unfoldable pub poll_audit : Recording → Result Text (List AuditRow) → Center → ℕ → Center × ℕ
poll_audit rec (err msg) c cursor = poll rec (err msg) c cursor
poll_audit rec (ok rows) c cursor = poll rec (ok (map audit_entry rows)) c cursor

poll_entries_forward :
    (rec : Recording) (cursor : ℕ) (es : List Entry) (c : Center) (newest : ℕ)
    → newest ≤ (poll_entries rec cursor es c newest).1
unfolding poll_entries
poll_entries_forward rec cursor [] c newest = ground arith
poll_entries_forward rec cursor ((none, input) ∷ es) c newest =
    poll_entries_forward rec cursor es c newest
poll_entries_forward rec cursor ((some t, input) ∷ es) c newest = elim (Bool-cases (ltb cursor t)) [
  | inr old ↦ rw (poll_entries, old) (poll_entries_forward rec cursor es c newest)
  | inl new ↦
      let c' =
        (record_event (rec.fails input.source_id) c (rec.new_id input.source_id) rec.now input).0 in
      let on = poll_entries_forward rec cursor es c' (later newest t) in
      rw (poll_entries, new) (ground (arith, on))
]

-- A cursor never goes back.
pub poll_forward :
    (rec : Recording) (answer : Result Text (List Entry)) (c : Center) (cursor : ℕ)
    → cursor ≤ (poll rec answer c cursor).1
unfolding poll
poll_forward rec (err msg) c cursor = ground arith
poll_forward rec (ok es) c cursor = poll_entries_forward rec cursor es c cursor
