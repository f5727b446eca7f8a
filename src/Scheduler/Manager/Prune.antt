-- ===== src/Scheduler/Manager/Prune.antt =====
-- Which snapshots the pruning of a schedule destroys.
use mathlib.Core.List.{Memᴰ}
use nova_nas.Base.{
  ℕ, ◌≤◌, ◌==◌, ◌||◌, nat_eq, length, sort_stable, sort_stable-SortedBy, mem-sort_stable,
  mem_of_sort_stable, drop-firsts_from, mem_of_firsts_from, mem_of_drop, mem_of_dropped, ◌≢◌, ◌<◌,
  ◌≡◌, refl, sym, ap, ◌∙◌, inl, inr, true, false, some, List, [], ◌∷◌, text_eq, text_beq_iff, ◌=?◌,
  pos_part, contains, Bool-cases, Option-cases, arith,
}
use nova_nas.Scheduler.Retention.{
  SnapInfo, older, bucket_earliest, classify_keep, partition_retention,
}
use nova_nas.Calendar.{stamp}
use nova_nas.Scheduler.Retention.Laws.{
  Class, class_key, class_count, buckets, newest, newest_kept, older_order,
}
use nova_nas.Scheduler.SnapTime.{format_snap_time, parsed_snap_time}
use nova_nas.Scheduler.SnapTime.RoundTrip.{parsed_snap_time_sound}
use nova_nas.Scheduler.Manager.{Snapshot, SnapshotSchedule, own_snapshot, managed, all_zero, pruned}

-- A snapshot of the listing that the schedule took: of its very dataset, with the short name that the
-- schedule gives at the time found in it.
pub record Own (s : SnapshotSchedule) (all : List Snapshot) (d : SnapInfo) : Type 0 where
  pub snapshot : Snapshot
  pub listed : Memᴰ snapshot all
  pub same_name : d.name ≡ snapshot.name
  pub same_dataset : snapshot.dataset ≡ s.dataset
  pub own_name : snapshot.short_name ≡ format_snap_time s.snapshot_prefix d.time

Own-cons :
    (s : SnapshotSchedule) (sn : Snapshot) (all : List Snapshot) (d : SnapInfo)
    → Own s all d
    → Own s (sn ∷ all) d
Own-cons s sn all d o = record {
  snapshot = o.snapshot;
  listed = Memᴰ.tail o.listed;
  same_name = o.same_name;
  same_dataset = o.same_dataset;
  own_name = o.own_name;
}

own_snapshot_lem :
    (s : SnapshotSchedule) (sn : Snapshot) (d : SnapInfo)
    → own_snapshot s sn ≡ some d
    → ((sn.dataset =? s.dataset) ≡ true)
      × (d.name ≡ sn.name)
      × (parsed_snap_time sn.short_name s.snapshot_prefix ≡ some d.time)
unfolding own_snapshot
own_snapshot_lem s sn d e = ground arith

own_snapshot-Own :
    (s : SnapshotSchedule) (sn : Snapshot) (all : List Snapshot) (i d : SnapInfo)
    → own_snapshot s sn ≡ some i
    → d ≡ i
    → Own s (sn ∷ all) d
own_snapshot-Own s sn all i d e same =
    let (dataset, name, time) = own_snapshot_lem s sn d (e ∙ ap some (sym same)) in
    record {
      snapshot = sn;
      listed = Memᴰ.head refl;
      same_name = name;
      same_dataset = (text_beq_iff sn.dataset s.dataset).0 dataset;
      own_name = (parsed_snap_time_sound sn.short_name s.snapshot_prefix d.time time).0;
    }

managed-Own :
    (s : SnapshotSchedule) (all : List Snapshot) {d : SnapInfo}
    → Memᴰ d (managed s all)
    → Own s all d
unfolding managed
managed-Own s [] m = elim m [ ]
managed-Own s (sn ∷ all) {d} m = elim (Option-cases (own_snapshot s sn)) [
  | inl foreign ↦ Own-cons s sn all d (managed-Own s all (rw (managed, foreign) at m))
  | inr (i, own) ↦ elim (rw (managed, own) at m) [
    | Memᴰ.head e ↦ own_snapshot-Own s sn all i d own e
    | Memᴰ.tail r ↦ Own-cons s sn all d (managed-Own s all r)
  ]
]

-- Everything that the pruning of a schedule destroys is a listed snapshot of the schedule's own dataset
-- (not of a dataset below it), has the short name that the schedule gives at some time (so no snapshot
-- made by hand or by another prefix), and is none of those that the retention policy keeps.
pub prune_destroys-Own :
    (s : SnapshotSchedule) (all : List Snapshot) {d : SnapInfo}
    → Memᴰ d (pruned s all)
    → Own s all d × (contains (classify_keep (managed s all) s.retention) d.name ≡ false)
unfolding pruned partition_retention
prune_destroys-Own s all {d} m = elim (Bool-cases (all_zero s.retention)) [
  | inl none_kept ↦ elim (rw (pruned, none_kept) at m) [ ]
  | inr some_kept ↦
      let (listed, out) =
        mem_of_dropped
          (λ (i : SnapInfo). contains (classify_keep (managed s all) s.retention) i.name)
          (managed s all) (rw (pruned, some_kept) at m) in
      (managed-Own s all listed, out)
]

-- The first own snapshot of a bucket whose bucket is among the newest that a positive count of its
-- class asks for is not destroyed: nothing that is destroyed has its name.
prune_spares_first :
    (c : Class) (s : SnapshotSchedule) (all : List Snapshot) {b d : SnapInfo}
    → 0 < pos_part (class_count c s.retention)
    → Memᴰ b (newest (class_count c s.retention) (buckets c (managed s all)))
    → Memᴰ d (pruned s all)
    → d.name ≢ b.name
prune_spares_first c s all h new m same =
    let kept = newest_kept c (managed s all) s.retention h new in
    let (own, out) = prune_destroys-Own s all m in cc

-- An own snapshot `r` that is the earliest of its bucket in a class for which more buckets are to be kept than `later`
-- lists: where every own snapshot as late as `r` or later is in the bucket of `r` or in one of those, an own
-- snapshot of the bucket of `r`, no later than `r`, is spared: nothing that is destroyed has its name.
pub prune_spares_newest :
    (c : Class) (s : SnapshotSchedule) (all : List Snapshot) {r : SnapInfo} (later : List ℕ)
    → Memᴰ r (managed s all)
    → length later < pos_part (class_count c s.retention)
    → ((i : SnapInfo)
        → Memᴰ i (managed s all)
        → class_key c i.time ≡ class_key c r.time
        → stamp r.time ≤ stamp i.time)
    → ((i : SnapInfo)
        → Memᴰ i (managed s all)
        → stamp r.time ≤ stamp i.time
        → (class_key c i.time == class_key c r.time || contains later (class_key c i.time)) ≡ true)
    → (b : SnapInfo) × Memᴰ b (managed s all)
      × (class_key c b.time ≡ class_key c r.time)
      × (stamp b.time ≤ stamp r.time)
      × ((d : SnapInfo) → Memᴰ d (pruned s all) → d.name ≢ b.name)
unfolding contains bucket_earliest
prune_spares_newest c s all {r} later m few first into =
    let own = managed s all in
    let key = λ (i : SnapInfo). class_key c i.time in
    let n = pos_part (class_count c s.retention) in
    let sorted = sort_stable older own in
    let (b, mb, k, early) =
      drop-firsts_from key older older_order [] later n (λ x. ground arith)
        (sort_stable-SortedBy older older_order own) (mem-sort_stable older m) refl few
        (λ i mi same. ground (arith, first i (mem_of_sort_stable older own mi) same))
        (λ i mi late.
          ground (arith, into i (mem_of_sort_stable older own mi) (ground (arith, late)))) in
    (
      b,
      mem_of_sort_stable older own (mem_of_firsts_from key [] sorted (mem_of_drop _ _ mb)),
      k,
      ground (arith, early),
      λ d md. prune_spares_first c s all (omega (arith, few)) mb md,
    )
