-- ===== src/Scheduler/Manager.antt =====
-- internal/host/scheduler/manager.go: one tick. The pass is modelled by the calls it makes, in their order:
-- `Host` says what the calls answer, each from the calls made before it. The errors that the source only
-- logs leave no trace. The location is UTC. The two ends of a send run at once; both have ended when the pass goes on.
pub mod Prune
pub mod Passes
pub mod Send
use nova_nas.Base.{
  ℕ, zero, suc, ◌+◌, Bool, true, false, not, ◌&&◌, ◌||◌, Option, none, some, List, [], ◌∷◌, ◌++◌,
  map, ltb, ◌==◌, if◌then◌else◌, Text, codes, text_eq, ◌=?◌, ℤ, pos, eqb_ℤ, Result, ok, err, length,
  cut,
}
use nova_nas.Calendar.{fixed_clock, Time}
use nova_nas.Scheduler.Cron.{should_fire_between}
use nova_nas.Scheduler.Cron.Parse.{parse_cron}
use nova_nas.Scheduler.Retention.{RetentionPolicy, SnapInfo, partition_retention}
use nova_nas.Scheduler.SnapTime.{format_snap_time, parsed_snap_time, strip_prefix}

pub record Snapshot : Type 0 where
  pub name : Text
  pub dataset : Text
  pub short_name : Text

pub record SnapshotSchedule : Type 0 where
  pub id : ℕ
  pub dataset : Text
  pub cron : Text
  pub snapshot_prefix : Text
  pub recursive : Bool
  pub retention : RetentionPolicy  -- the five `Retention…` columns
  pub last_fired_at : Option Time

pub record ReplicationSchedule : Type 0 where
  pub id : ℕ
  pub src_dataset : Text
  pub target_id : ℕ
  pub cron : Text
  pub snapshot_prefix : Text
  pub last_fired_at : Option Time
  pub last_sync_snapshot : Option Text

-- A call's error is a text.
pub data Call : Type 0 where
  list_snapshots : Text → Call
  create_snapshot : Text → Text → Bool → Call
  destroy_snapshot : Text → Call
  mark_snapshot_fired : ℕ → Time → Call
  get_target : ℕ → Call
  send_receive : Text → Text → Text → Call  -- the snapshot, what it is incremental from, where to
  mark_replication_result : ℕ → Option Text → Option Text → Call
  mark_replication_fired : ℕ → Time → Call

-- What the calls that return something or may fail answer, after the calls before them.
pub record Host : Type 0 where
  pub listing : List Call → Text → Result Text (List Snapshot)
  pub creating : List Call → Text → Text → Option Text
  pub target_prefix : List Call → ℕ → Result Text Text
  pub receiving : List Call → Text → Option Text
  pub sending : List Call → Text → Option Text
  pub has_transport : Bool
  pub marking : List Call → ℕ → Option Text

-- Adds a call at the end.
abbrev pub then_call : List Call → Call → List Call
then_call h c = h ++ c ∷ []

-- The body of the loop of `pruneSnapshots` that picks the schedule's own snapshots.
unfoldable pub own_snapshot : SnapshotSchedule → Snapshot → Option SnapInfo
own_snapshot s sn =
    if not (sn.dataset =? s.dataset)
    then none
    else elim (strip_prefix (s.snapshot_prefix ++ b'-' ∷ []) sn.short_name) [
      | none ↦ none
      | some _ ↦ elim (parsed_snap_time sn.short_name s.snapshot_prefix) as (λ _. Option SnapInfo) [
        | none ↦ none
        | some t ↦ some (record { name = sn.name; time = t })
      ]
    ]

unfoldable pub managed : SnapshotSchedule → List Snapshot → List SnapInfo
managed s [] = []
managed s (sn ∷ all) = elim (own_snapshot s sn) [
  | none ↦ managed s all
  | some i ↦ i ∷ managed s all
]

unfoldable pub all_zero : RetentionPolicy → Bool
all_zero p =
    eqb_ℤ p.hourly (pos 0)
    && eqb_ℤ p.daily (pos 0)
    && eqb_ℤ p.weekly (pos 0)
    && eqb_ℤ p.monthly (pos 0)
    && eqb_ℤ p.yearly (pos 0)

-- What `pruneSnapshots` destroys of a listing, in the order of its calls.
unfoldable pub pruned : SnapshotSchedule → List Snapshot → List SnapInfo
pruned s all =
    if all_zero s.retention then [] else (partition_retention (managed s all) s.retention).1

abbrev pub destroy_calls : List SnapInfo → List Call
destroy_calls [] = []
destroy_calls (d ∷ ds) = destroy_snapshot d.name ∷ destroy_calls ds

unfoldable pub prune_snapshots : Host → SnapshotSchedule → List Call → List Call
prune_snapshots host s h = elim (host.listing h s.dataset) [
  | err _ ↦ then_call h (list_snapshots s.dataset)
  | ok all ↦ then_call h (list_snapshots s.dataset) ++ destroy_calls (pruned s all)
]

-- `fireSnapshot`, whose error is only logged, and the mark after it.
unfoldable pub fire_and_mark : SnapshotSchedule → Time → List Call → List Call
fire_and_mark s now h =
    then_call
      (then_call h (create_snapshot s.dataset (format_snap_time s.snapshot_prefix now) s.recursive))
      (mark_snapshot_fired s.id now)

-- The body of the loop of `runSnapshotSchedules`.
unfoldable pub run_snapshot_schedule : Host → Time → SnapshotSchedule → List Call → List Call
run_snapshot_schedule host now s h = elim (parse_cron s.cron) [
  | err _ ↦ h
  | ok expr ↦
      let fired =
        if should_fire_between fixed_clock expr s.last_fired_at now
        then fire_and_mark s now h
        else h in
      prune_snapshots host s fired
]

unfoldable pub run_snapshot_schedules : Host → Time → List SnapshotSchedule → List Call → List Call
run_snapshot_schedules host now [] h = h
run_snapshot_schedules host now (s ∷ ss) h =
    run_snapshot_schedules host now ss (run_snapshot_schedule host now s h)

unfoldable pub has_name : Text → List Snapshot → Bool
has_name name [] = false
has_name name (s ∷ all) = s.name =? name || has_name name all

-- The last `/` of a text: what follows it, or all of it.
unfoldable pub basename : Text → Text
basename [] = []
basename (c ∷ s) = elim (cut b'/' s) as (λ _. Text) [
  | some _ ↦ basename s
  | none ↦ if c == b'/' then s else c ∷ s
]

-- `strings.TrimRight(s, "/")`
unfoldable pub trim_slashes : Text → Text
trim_slashes [] = []
trim_slashes (c ∷ s) = elim (trim_slashes s) [
  | [] ↦ if c == b'/' then [] else c ∷ []
  | d ∷ ds ↦ c ∷ d ∷ ds
]

unfoldable pub remote_dataset : Text → Text → Text
remote_dataset prefix src = trim_slashes prefix ++ b'/' ∷ basename src

-- The errors are texts; the text of the source's own errors is not modelled letter by letter.
abbrev pub not_a_snapshot : Text
not_a_snapshot = codes "not a snapshot name"

abbrev pub no_transport : Text
no_transport = codes "no replication transport configured"

-- `snapshotExists`, with the calls made when it returns.
unfoldable pub snapshot_exists : Host → Text → List Call → List Call × Result Text Bool
snapshot_exists host name h = elim (cut b'@' name) as (λ _. List Call × Result Text Bool) [
  | none ↦ (h, err not_a_snapshot)
  | some (ds, _) ↦ elim (host.listing h ds) as (λ _. List Call × Result Text Bool) [
    | err e ↦ (then_call h (list_snapshots ds), err e)
    | ok all ↦ (then_call h (list_snapshots ds), ok (has_name name all))
  ]
]

abbrev pub if_found : Text → Result Text Bool → Result Text Text
if_found last (err e) = err e
if_found last (ok found) = ok (if found then last else [])

-- What the send is incremental from; the empty text means a full send.
unfoldable pub incremental_base : Host → Option Text → List Call → List Call × Result Text Text
incremental_base host none h = (h, ok [])
incremental_base host (some last) h =
    let (h', found) = snapshot_exists host last h in
    if length last == 0 then (h, ok []) else (h', if_found last found)

-- `fireReplication` from the choice of the base on.
unfoldable pub send_to :
    Host → ReplicationSchedule → Text → Text → Text → List Call → List Call × Option Text
send_to host s full base dst h =
    let sent = then_call h (send_receive full base dst) in
    let marked = then_call sent (mark_replication_result s.id (some full) none) in
    elim (host.receiving h full) as (λ _. List Call × Option Text) [
      | some e ↦ (sent, some e)
      | none ↦ elim (host.sending h full) as (λ _. List Call × Option Text) [
        | some e ↦ (sent, some e)
        | none ↦ (marked, host.marking sent s.id)
      ]
    ]

unfoldable pub fire_created :
    Host → ReplicationSchedule → Text → Text → List Call → List Call × Option Text
fire_created host s full target h =
    let (h', base) = incremental_base host s.last_sync_snapshot h in
    elim base [
      | err e ↦ (h', some e)
      | ok b ↦
          if host.has_transport
          then send_to host s full b (remote_dataset target s.src_dataset) h'
          else (h', some no_transport)
    ]

unfoldable pub fire_replication :
    Host → ReplicationSchedule → Time → List Call → List Call × Option Text
fire_replication host s now h =
    let short = format_snap_time s.snapshot_prefix now in
    let asked = then_call h (get_target s.target_id) in
    let created = then_call asked (create_snapshot s.src_dataset short false) in
    elim (host.target_prefix h s.target_id) as (λ _. List Call × Option Text) [
      | err e ↦ (asked, some e)
      | ok target ↦
          elim (host.creating asked s.src_dataset short) as (λ _. List Call × Option Text) [
            | some e ↦ (created, some e)
            | none ↦ fire_created host s (s.src_dataset ++ b'@' ∷ short) target created
          ]
    ]

-- A failed pass keeps the last synced snapshot and notes the error; the schedule is marked either way.
unfoldable pub run_replication_schedule : Host → Time → ReplicationSchedule → List Call → List Call
run_replication_schedule host now s h = elim (parse_cron s.cron) [
  | err _ ↦ h
  | ok expr ↦
      let (fired, e) = fire_replication host s now h in
      let noted = elim e as (λ _. List Call) [
        | none ↦ fired
        | some msg ↦ then_call fired (mark_replication_result s.id s.last_sync_snapshot (some msg))
      ] in
      if should_fire_between fixed_clock expr s.last_fired_at now
      then then_call noted (mark_replication_fired s.id now)
      else h
]

unfoldable pub run_replication_schedules :
    Host → Time → List ReplicationSchedule → List Call → List Call
run_replication_schedules host now [] h = h
run_replication_schedules host now (s ∷ ss) h =
    run_replication_schedules host now ss (run_replication_schedule host now s h)
