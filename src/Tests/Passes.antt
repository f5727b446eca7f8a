-- ===== src/Tests/Passes.antt =====
-- The theorems on the passes of internal/host/scheduler/manager.go, at concrete inputs.
use mathlib.Core.List.{Memᴰ}
use nova_nas.Base.{
  ℕ, ap, inl, inr, ◌⊎◌, ◌≤◌, ◌==◌, ◌||◌, nat_eq, ◌≡◌, ◌≢◌, refl, arith, codes, ok, none, some, true,
  false, List, [], ◌∷◌, ◌++◌, contains, text_eq, text_beq, cut, sort_stable, insert_sorted,
  firsts_from, partition_if, mark,
}
use nova_nas.Calendar.{days_in, stamp}
use nova_nas.Scheduler.Retention.{
  SnapInfo, classify_keep, keep_classes, keep_n, bucket_earliest, partition_retention, day_key,
  month_key,
}
use nova_nas.Scheduler.Retention.Laws.{daily}
use nova_nas.Scheduler.SnapTime.{
  format_snap_time, format_time, parsed_snap_time, strip_prefix, parse_time, take_four, take_two,
  skip_dash, check_time,
}
use nova_nas.Scheduler.Manager.{
  Snapshot, SnapshotSchedule, ReplicationSchedule, Host, managed, own_snapshot, all_zero, pruned,
  run_snapshot_schedules, fire_replication, fire_created, incremental_base, snapshot_exists,
  send_to, has_name,
}
use nova_nas.Scheduler.Manager.Prune.{Own, prune_destroys-Own, prune_spares_newest}
use nova_nas.Scheduler.Manager.Passes.{
  created, marked, due_snapshots, due_marks, run_snapshot_schedules_fire_due,
}
use nova_nas.Scheduler.Manager.Send.{Sent, fire_replication-Sent}
use nova_nas.Tests.Scheduler.{at_day, auto, one_day, spring}

abbrev nightly : SnapshotSchedule
nightly = record {
  id = 7;
  dataset = codes "tank/a";
  cron = codes "0 0 29 2 *";
  snapshot_prefix = codes "auto";
  recursive = false;
  retention = one_day;
  last_fired_at = none;
}

abbrev listing : List Snapshot
listing = auto 4 ∷ auto 5 ∷ []

abbrev info : ℕ → SnapInfo
info d = record { name = (auto d).name; time = at_day d }

pruned_run : pruned nightly listing ≡ info 4 ∷ []
unfolding pruned partition_retention partition_if classify_keep keep_classes keep_n bucket_earliest
    firsts_from sort_stable insert_sorted mark day_key month_key contains all_zero managed
    own_snapshot format_snap_time format_time parsed_snap_time strip_prefix parse_time take_four
    take_two skip_dash check_time text_beq days_in
pruned_run = refl

prune_destroys-Own_example :
    Own nightly listing (info 4)
    × (contains (classify_keep (managed nightly listing) one_day) (info 4).name ≡ false)
unfolding pruned partition_retention partition_if classify_keep keep_classes keep_n bucket_earliest
    firsts_from sort_stable insert_sorted mark day_key month_key contains all_zero managed
    own_snapshot format_snap_time format_time parsed_snap_time strip_prefix parse_time take_four
    take_two skip_dash check_time text_beq days_in
prune_destroys-Own_example = prune_destroys-Own nightly listing {d = info 4} (Memᴰ.head refl)

managed_listing : managed nightly listing ≡ info 4 ∷ info 5 ∷ []
unfolding managed own_snapshot format_snap_time format_time parsed_snap_time strip_prefix parse_time
    take_four take_two skip_dash check_time text_beq days_in
managed_listing = refl

of_listing : (i : SnapInfo) → Memᴰ i (managed nightly listing) → (i ≡ info 4) ⊎ (i ≡ info 5)
of_listing i m = elim (rw managed_listing at m) [
  | Memᴰ.head e ↦ inl e
  | Memᴰ.tail (Memᴰ.head e) ↦ inr e
  | Memᴰ.tail (Memᴰ.tail rest) ↦ elim rest [ ]
]

earliest_five :
    (i : SnapInfo)
    → Memᴰ i (managed nightly listing)
    → day_key i.time ≡ day_key (info 5).time
    → stamp (info 5).time ≤ stamp i.time
unfolding day_key month_key
earliest_five i m same = elim (of_listing i m) [
  | inl e ↦ absurd (ground (arith, ap (λ (x : SnapInfo). day_key x.time) e, same))
  | inr e ↦ rw e (omega arith)
]

five_alone :
    (i : SnapInfo)
    → Memᴰ i (managed nightly listing)
    → stamp (info 5).time ≤ stamp i.time
    → (day_key i.time == day_key (info 5).time || contains [] (day_key i.time)) ≡ true
unfolding day_key month_key contains
five_alone i m late = elim (of_listing i m) [
  | inl e ↦ absurd (ground (arith, ap (λ (x : SnapInfo). stamp x.time) e, late))
  | inr e ↦ rw e refl
]

prune_spares_newest_example :
    (b : SnapInfo) × Memᴰ b (managed nightly listing)
    × (day_key b.time ≡ day_key (info 5).time)
    × (stamp b.time ≤ stamp (info 5).time)
    × ((d : SnapInfo) → Memᴰ d (pruned nightly listing) → d.name ≢ b.name)
prune_spares_newest_example =
    prune_spares_newest daily nightly listing {r = info 5} []
      (rw managed_listing (Memᴰ.tail (Memᴰ.head refl))) (omega arith) earliest_five five_alone

-- A host on which every call succeeds.
abbrev host : Host
host = record {
  listing = λ h root. ok listing;
  creating = λ h root short. none;
  target_prefix = λ h id. ok (codes "backup/");
  receiving = λ h snapshot. none;
  sending = λ h snapshot. none;
  has_transport = true;
  marking = λ h id. none;
}

run_snapshot_schedules_fire_due_example :
    (created (run_snapshot_schedules host spring (nightly ∷ nightly ∷ []) [])
      ≡ created [] ++ due_snapshots spring (nightly ∷ nightly ∷ []))
    × (marked (run_snapshot_schedules host spring (nightly ∷ nightly ∷ []) [])
        ≡ marked [] ++ due_marks spring (nightly ∷ nightly ∷ []))
run_snapshot_schedules_fire_due_example =
    run_snapshot_schedules_fire_due host spring (nightly ∷ nightly ∷ []) []

abbrev offsite : ReplicationSchedule
offsite = record {
  id = 9;
  src_dataset = codes "tank/a";
  target_id = 3;
  cron = codes "0 0 29 2 *";
  snapshot_prefix = codes "repl";
  last_fired_at = none;
  last_sync_snapshot = some (auto 5).name;
}

fire_replication-Sent_example :
    Sent host offsite
      (offsite.src_dataset ++ b'@' ∷ format_snap_time offsite.snapshot_prefix spring)
      (fire_replication host offsite spring []).0
unfolding fire_replication fire_created incremental_base snapshot_exists send_to cut has_name
    format_snap_time format_time text_beq
fire_replication-Sent_example =
    fire_replication-Sent host offsite spring [] (fire_replication host offsite spring []).0 refl
