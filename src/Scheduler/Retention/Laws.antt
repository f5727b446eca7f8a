-- ===== src/Scheduler/Retention/Laws.antt =====
-- What internal/host/scheduler/retention.go keeps and drops.
use mathlib.Core.List.{Memᴰ, Perm}
use nova_nas.Base.{
  mark_old, mark_new, length-mark, partition_if-perm, partition_if-AllAre, AllAre, length-drop, ℕ,
  zero, suc, ◌+◌, ◌-◌, ◌≤◌, ◌<◌, ◌≡◌, inl, inr, true, false, List, [], ◌∷◌, ◌++◌, ℤ, pos, negsuc,
  pos_part, ltb_ℤ, length, drop, contains, text_eq, Text, sort_stable, sort_stable-SortedBy,
  IsOrder, mem-sort_stable, firsts_from, firsts_from_cover, arith,
}
use nova_nas.Calendar.{Time, stamp}
use nova_nas.Scheduler.Retention.{
  RetentionPolicy, SnapInfo, hour_key, day_key, week_key, month_key, year_key, older,
  bucket_earliest, keep_n, keep_classes, classify_keep, partition_retention,
}

pub data Class : Type 0 where
  hourly daily weekly monthly yearly : Class

abbrev pub class_key : Class → Time → ℕ
class_key hourly = hour_key
class_key daily = day_key
class_key weekly = week_key
class_key monthly = month_key
class_key yearly = year_key

abbrev pub class_count : Class → RetentionPolicy → ℤ
class_count hourly p = p.hourly
class_count daily p = p.daily
class_count weekly p = p.weekly
class_count monthly p = p.monthly
class_count yearly p = p.yearly

-- The buckets of a class, each by its earliest snapshot, from the oldest bucket on.
abbrev pub buckets : Class → List SnapInfo → List SnapInfo
buckets c snaps = bucket_earliest (sort_stable older snaps) (class_key c)

-- The most recent `n` of them.
abbrev pub newest : ℤ → List SnapInfo → List SnapInfo
newest n b = drop (length b - pos_part n) b

abbrev name_of : SnapInfo → Text
name_of s = s.name

keep_n_old :
    (b : List SnapInfo) (n : ℤ) (keep : List Text) (x : Text)
    → contains keep x ≡ true
    → contains (keep_n b n keep) x ≡ true
unfolding keep_n
keep_n_old b n keep x h = ground (arith, mark_old name_of (drop (length b - pos_part n) b) keep x h)

positive_count : (n : ℤ) → 0 < pos_part n → ltb_ℤ n (pos 1) ≡ false
positive_count (pos a) h = ground arith
positive_count (negsuc a) h = elim h [ ]

not-mem-drop-nil : {s : SnapInfo} (k : ℕ) → ¬ Memᴰ s (drop k [])
not-mem-drop-nil zero m = elim m [ ]
not-mem-drop-nil (suc k) m = elim m [ ]

keep_n_new :
    (b : List SnapInfo) (n : ℤ) (keep : List Text) (s : SnapInfo)
    → 0 < pos_part n
    → Memᴰ s (newest n b)
    → contains (keep_n b n keep) s.name ≡ true
unfolding keep_n
keep_n_new [] n keep s h m = absurd (not-mem-drop-nil (0 - pos_part n) m)
keep_n_new (x ∷ b) n keep s h m = ground (arith, positive_count n h, mark_new name_of keep m)

keep_classes-newest :
    (c : Class) (sorted : List SnapInfo) (p : RetentionPolicy) (s : SnapInfo)
    → 0 < pos_part (class_count c p)
    → Memᴰ s (newest (class_count c p) (bucket_earliest sorted (class_key c)))
    → contains (keep_classes sorted p) s.name ≡ true
unfolding keep_classes
keep_classes-newest hourly sorted p s h m = search (keep_n_old, keep_n_new)
keep_classes-newest daily sorted p s h m = search (keep_n_old, keep_n_new)
keep_classes-newest weekly sorted p s h m = search (keep_n_old, keep_n_new)
keep_classes-newest monthly sorted p s h m = search (keep_n_old, keep_n_new)
keep_classes-newest yearly sorted p s h m = search (keep_n_old, keep_n_new)

pub older_order : IsOrder older
older_order = record { asymm = λ x y h. ground arith; trans = λ x y z h k. ground arith }

-- The earliest snapshot of a bucket is in the keep set when its bucket is among the newest that the count
-- of the bucket's class asks for, and the count is positive.
pub newest_kept :
    (c : Class) (snaps : List SnapInfo) (p : RetentionPolicy) {b : SnapInfo}
    → 0 < pos_part (class_count c p)
    → Memᴰ b (newest (class_count c p) (buckets c snaps))
    → contains (classify_keep snaps p) b.name ≡ true
unfolding classify_keep bucket_earliest firsts_from sort_stable
newest_kept c [] p h m = absurd (not-mem-drop-nil (0 - pos_part (class_count c p)) m)
newest_kept c (x ∷ snaps) p {b} h m =
    ground (arith, keep_classes-newest c (sort_stable older (x ∷ snaps)) p b h m)

-- Each snapshot belongs to a bucket of each class, and the bucket's snapshot is no later than it.
buckets_cover :
    (c : Class) (snaps : List SnapInfo) {s : SnapInfo}
    → Memᴰ s snaps
    → (b : SnapInfo) × Memᴰ b (buckets c snaps)
      × (class_key c b.time ≡ class_key c s.time)
      × (stamp b.time ≤ stamp s.time)
unfolding bucket_earliest contains
buckets_cover c snaps {s} m =
    elim (firsts_from_cover (λ (x : SnapInfo). class_key c x.time) older [] (λ x. ground arith)
      (sort_stable-SortedBy older older_order snaps) (mem-sort_stable older m)) [
        | inl h ↦ absurd cc
        | inr (b, mb, k, later) ↦ (b, mb, k, ground arith)
      ]

-- The kept and the dropped snapshots are the given ones, each as often. Those kept have their name in the
-- keep set, and those dropped have not.
partition_retention-perm :
    (snaps : List SnapInfo) (p : RetentionPolicy)
    → let in_set = λ (s : SnapInfo). contains (classify_keep snaps p) s.name in
      let (keep, drop) = partition_retention snaps p in
      Perm (keep ++ drop) snaps × AllAre in_set true keep × AllAre in_set false drop
unfolding partition_retention
partition_retention-perm snaps p =
    (partition_if-perm _ snaps, (partition_if-AllAre _ snaps).0, (partition_if-AllAre _ snaps).1)

length-keep_n :
    (b : List SnapInfo) (n : ℤ) (keep : List Text)
    → length (keep_n b n keep) ≤ pos_part n + length keep
unfolding keep_n
length-keep_n b n keep = ground (
  arith,
  length-mark name_of (drop (length b - pos_part n) b) keep,
  length-drop (length b - pos_part n) b,
)

length-keep_classes :
    (sorted : List SnapInfo) (p : RetentionPolicy)
    → length (keep_classes sorted p)
      ≤ pos_part p.hourly
        + pos_part p.daily
        + pos_part p.weekly
        + pos_part p.monthly
        + pos_part p.yearly
unfolding keep_classes
length-keep_classes sorted p = omega (arith, length-keep_n)

-- The keep set holds at most as many names as the counts of the classes sum up to, a negative count
-- being none.
length-classify_keep :
    (snaps : List SnapInfo) (p : RetentionPolicy)
    → length (classify_keep snaps p)
      ≤ pos_part p.hourly
        + pos_part p.daily
        + pos_part p.weekly
        + pos_part p.monthly
        + pos_part p.yearly
unfolding classify_keep
length-classify_keep snaps p = ground (arith, length-keep_classes (sort_stable older snaps) p)
