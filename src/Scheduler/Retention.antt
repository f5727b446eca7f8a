-- ===== src/Scheduler/Retention.antt =====
-- internal/host/scheduler/retention.go: which snapshots a schedule keeps. The bucket keys, texts of digits
-- in the source, are the numbers that those digits write. The times are those of `UTC()`, in whose fields the keys
-- are written.
pub mod Laws
use nova_nas.Base.{
  ℕ, ◌+◌, ◌-◌, ◌*◌, Bool, true, false, ◌||◌, List, [], ◌∷◌, ltb, ◌==◌, if◌then◌else◌, ℤ, pos,
  pos_part, ltb_ℤ, length, drop, contains, text_eq, Text, sort_stable, firsts_from, partition_if,
  mark,
}
use nova_nas.Calendar.{Time, iso_week, after}

pub record RetentionPolicy : Type 0 where
  pub hourly : ℤ
  pub daily : ℤ
  pub weekly : ℤ
  pub monthly : ℤ
  pub yearly : ℤ

pub record SnapInfo : Type 0 where
  pub name : Text
  pub time : Time

unfoldable pub month_key : Time → ℕ
month_key t = t.year * 100 + t.month

unfoldable pub day_key : Time → ℕ
unfolding month_key
day_key t = month_key t * 100 + t.day

unfoldable pub hour_key : Time → ℕ
unfolding day_key
hour_key t = day_key t * 100 + t.hour

unfoldable pub year_key : Time → ℕ
year_key t = t.year

unfoldable pub week_key : Time → ℕ
week_key t = let (y, w) = iso_week t in y * 100 + w

-- `sorted[i].Time.Before(sorted[j].Time)`
abbrev pub older : SnapInfo → SnapInfo → Bool
older a b = after b.time a.time

unfoldable pub bucket_earliest : List SnapInfo → (Time → ℕ) → List SnapInfo
bucket_earliest sorted k = firsts_from (λ s. k s.time) [] sorted

-- The last `n` of the buckets, which are in order from the oldest.
unfoldable pub keep_n : List SnapInfo → ℤ → List Text → List Text
keep_n b n keep =
    if ltb_ℤ n (pos 1) || length b == 0
    then keep
    else mark (λ (s : SnapInfo). s.name) (drop (length b - pos_part n) b) keep

-- The five classes over the snapshots in order from the oldest.
unfoldable pub keep_classes : List SnapInfo → RetentionPolicy → List Text
keep_classes sorted p =
    let hourly = bucket_earliest sorted hour_key in
    let daily = bucket_earliest sorted day_key in
    let weekly = bucket_earliest sorted week_key in
    let monthly = bucket_earliest sorted month_key in
    let yearly = bucket_earliest sorted year_key in
    keep_n yearly p.yearly (
      keep_n monthly p.monthly
        (keep_n weekly p.weekly (keep_n daily p.daily (keep_n hourly p.hourly []))))

unfoldable pub classify_keep : List SnapInfo → RetentionPolicy → List Text
classify_keep snaps p = if length snaps == 0 then [] else keep_classes (sort_stable older snaps) p

-- The kept snapshots and the dropped ones.
unfoldable pub partition_retention : List SnapInfo → RetentionPolicy → List SnapInfo × List SnapInfo
partition_retention snaps p =
    let keep_set = classify_keep snaps p in partition_if (λ s. contains keep_set s.name) snaps
