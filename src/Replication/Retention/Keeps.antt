-- ===== src/Replication/Retention/Keeps.antt =====
-- `RetentionApply` of internal/replication/retention.go as a whole.
use mathlib.Core.List.{Memᴰ, Perm, append-nil}
use mathlib.Core.List.Perm
use nova_nas.Base.{
  ℕ, refl, take-firsts_from, mem_of_sort_stable, nat_eq, ◌≤◌, ◌<◌, ◌≡◌, inl, inr, true, false, ◌||◌,
  List, [], ◌∷◌, ◌++◌, ◌==◌, pos_part, length, take, contains, string_eq, sort_stable,
  sort_stable-perm, sort_stable-SortedBy, IsOrder, mem-sort_stable, firsts_from_cover,
  mem_of_firsts_from, mem_of_take, partition_if-perm, partition_if-mem, Bool-cases, arith,
}
use nova_nas.Calendar.{stamp}
use nova_nas.Replication.Retention.{
  RetentionPolicy, RunRecord, is_zero, newer, keep_ids, retention_apply,
}
use nova_nas.Replication.Retention.Laws.{
  Class, daily, weekly, monthly, yearly, class_key, class_count, buckets, keep_ids-class,
  keep_ids_last,
}

abbrev pub kept : List RunRecord → RetentionPolicy → List RunRecord
kept records policy = (retention_apply records policy).0

-- No record is lost, invented or put on both sides.
retention_apply-perm :
    (records : List RunRecord) (policy : RetentionPolicy)
    → let (keep, drop) = retention_apply records policy in Perm (keep ++ drop) records
unfolding retention_apply
retention_apply-perm records policy = elim (Bool-cases (is_zero policy || length records == 0)) [
  | inl all ↦ rw all (rw append-nil (Perm.refl records))
  | inr some_rule ↦ rw some_rule (
      Perm.trans (partition_if-perm _ (sort_stable newer records)) (sort_stable-perm newer records))
]

newer_order : IsOrder newer
newer_order = record { asymm = λ x y h. ground arith; trans = λ x y z h k. ground arith }

-- A record of the sorted list whose id is in the keep set is kept, once there is a rule and a record.
kept_of_id :
    (records : List RunRecord) (policy : RetentionPolicy) {r : RunRecord}
    → is_zero policy ≡ false
    → Memᴰ r (sort_stable newer records)
    → contains (keep_ids (sort_stable newer records) policy) r.id ≡ true
    → Memᴰ r (kept records policy)
unfolding retention_apply sort_stable
kept_of_id [] policy rule m h = elim m [ ]
kept_of_id (x ∷ records) policy {r} rule m h =
    let some_rule : (is_zero policy || length (x ∷ records) == 0) ≡ false = ground arith in
    rw (kept, some_rule) ((partition_if-mem _ m).0 h)

is_zero-class :
    (c : Class) (policy : RetentionPolicy)
    → 0 < pos_part (class_count c policy)
    → is_zero policy ≡ false
unfolding is_zero
is_zero-class daily policy h = ground arith
is_zero-class weekly policy h = ground arith
is_zero-class monthly policy h = ground arith
is_zero-class yearly policy h = ground arith

is_zero_last : (policy : RetentionPolicy) → 0 < pos_part policy.keep_last_n → is_zero policy ≡ false
unfolding is_zero
is_zero_last policy h = ground arith

-- The newest `keep_last_n` records are kept.
retention_keeps_last :
    (records : List RunRecord) (policy : RetentionPolicy) {r : RunRecord}
    → Memᴰ r (take (pos_part policy.keep_last_n) (sort_stable newer records))
    → 0 < pos_part policy.keep_last_n
    → Memᴰ r (kept records policy)
retention_keeps_last records policy {r} m h =
    kept_of_id records policy (is_zero_last policy h) (mem_of_take _ _ m)
      (keep_ids_last (sort_stable newer records) policy r h m)

-- The first record of a bucket is kept when its bucket is among the newest that the count of the
-- bucket's class asks for, and the count is positive.
keeps_first_of_bucket :
    (c : Class) (records : List RunRecord) (policy : RetentionPolicy) {b : RunRecord}
    → 0 < pos_part (class_count c policy)
    → Memᴰ b (take (pos_part (class_count c policy)) (buckets c (sort_stable newer records)))
    → Memᴰ b (kept records policy)
keeps_first_of_bucket c records policy {b} h m =
    let sorted = sort_stable newer records in
    kept_of_id records policy (is_zero-class c policy h)
      (mem_of_firsts_from (class_key c) [] sorted (mem_of_take _ _ m))
      (keep_ids-class c sorted policy b h m)

-- A record `r` for whose class the policy asks for more buckets than `later` lists: where every record as new as `r`
-- or newer is in the bucket of `r` or in one of those, a record of the bucket of `r` that is as new as `r` or
-- newer is kept.
pub retention_keeps_buckets :
    (c : Class) (records : List RunRecord) (policy : RetentionPolicy) {r : RunRecord}
    (later : List ℕ)
    → Memᴰ r records
    → length later < pos_part (class_count c policy)
    → ((s : RunRecord)
        → Memᴰ s records
        → stamp r.time ≤ stamp s.time
        → (class_key c s == class_key c r || contains later (class_key c s)) ≡ true)
    → (b : RunRecord) × Memᴰ b (kept records policy)
      × (class_key c b ≡ class_key c r)
      × (stamp r.time ≤ stamp b.time)
unfolding contains
retention_keeps_buckets c records policy {r} later m few into =
    let (b, mb, k, newest) =
      take-firsts_from (class_key c) newer [] later (pos_part (class_count c policy))
        (λ x. ground arith) (sort_stable-SortedBy newer newer_order records)
        (mem-sort_stable newer m) refl few
        (λ s ms late.
          ground (arith, into s (mem_of_sort_stable newer records ms) (ground (arith, late)))) in
    (b, keeps_first_of_bucket c records policy (omega (arith, few)) mb, k, ground (arith, newest))

-- Each record belongs to a bucket of each class, and the bucket's record is no older than it.
run_buckets_cover :
    (c : Class) (records : List RunRecord) {r : RunRecord}
    → Memᴰ r records
    → (b : RunRecord) × Memᴰ b (buckets c (sort_stable newer records))
      × (class_key c b ≡ class_key c r)
      × (stamp r.time ≤ stamp b.time)
unfolding contains
run_buckets_cover c records {r} m =
    elim (firsts_from_cover (class_key c) newer [] (λ x. ground arith)
      (sort_stable-SortedBy newer newer_order records) (mem-sort_stable newer m)) [
        | inl h ↦ absurd cc
        | inr (b, mb, k, older) ↦ (b, mb, k, ground arith)
      ]
