-- ===== src/Replication/Retention/Laws.antt =====
-- What internal/replication/retention.go keeps and drops.
use mathlib.Core.List.{Memᴰ}
use Prim.Native.String.{String}
use nova_nas.Base.{
  ℕ, zero, suc, ◌-◌, ◌<◌, ◌≡◌, refl, inl, inr, true, List, [], ◌∷◌, ltb, ℤ, pos, negsuc, pos_part,
  ltb_ℤ, take, contains, string_eq, nat_eq, firsts_from, mark, mark_old, mark_new, Bool-cases,
  arith,
}
use nova_nas.Calendar.{Time}
use nova_nas.Replication.Retention.{
  RetentionPolicy, RunRecord, daily_key, weekly_key, monthly_key, yearly_key, id_of, mark_last,
  pick_loop, pick_by_bucket, keep_ids,
}

-- The loop marks the first `want` of the first records of the buckets.
pick_loop-eq :
    (key : Time → ℕ) (want : ℕ) (seen : List ℕ) (rs : List RunRecord) (keep_set : List String)
    → 0 < want
    → pick_loop key want seen rs keep_set
      ≡ mark id_of (take want (firsts_from (λ (r : RunRecord). key r.time) seen rs)) keep_set
unfolding pick_loop firsts_from mark
pick_loop-eq key zero seen rs keep_set h = elim h [ ]
pick_loop-eq key (suc want) seen [] keep_set h = refl
pick_loop-eq key (suc zero) seen (r ∷ rs) keep_set h =
    elim (Bool-cases (contains seen (key r.time))) [
      | inl old ↦ rw old (pick_loop-eq key 1 seen rs keep_set h)
      | inr new ↦ rw new
    ]
pick_loop-eq key (suc (suc w)) seen (r ∷ rs) keep_set h =
    elim (Bool-cases (contains seen (key r.time))) [
      | inl old ↦ rw old (pick_loop-eq key (suc (suc w)) seen rs keep_set h)
      | inr new ↦
          let less : suc (suc w) - 1 ≡ suc w = omega arith in
          let more : ltb 1 (suc (suc w)) ≡ true = ground arith in
          rw (new, more)
            (rw less
              (pick_loop-eq key (suc w) (key r.time ∷ seen) rs (r.id ∷ keep_set) (omega arith)))
    ]

pub data Class : Type 0 where
  daily weekly monthly yearly : Class

abbrev pub class_key : Class → RunRecord → ℕ
class_key daily r = daily_key r.time
class_key weekly r = weekly_key r.time
class_key monthly r = monthly_key r.time
class_key yearly r = yearly_key r.time

abbrev pub class_count : Class → RetentionPolicy → ℤ
class_count daily p = p.keep_daily
class_count weekly p = p.keep_weekly
class_count monthly p = p.keep_monthly
class_count yearly p = p.keep_yearly

-- The newest record of each bucket of a class, from the newest bucket on.
abbrev pub buckets : Class → List RunRecord → List RunRecord
buckets c sorted = firsts_from (class_key c) [] sorted

mark_last_old :
    (n : ℤ) (sorted : List RunRecord) (set : List String) (x : String)
    → contains set x ≡ true
    → contains (mark_last n sorted set) x ≡ true
unfolding mark_last
mark_last_old n sorted set x h = ground (arith, mark_old id_of (take (pos_part n) sorted) set x h)

positive_count : (n : ℤ) → 0 < pos_part n → ltb_ℤ (pos 0) n ≡ true
positive_count (pos a) h = ground arith
positive_count (negsuc a) h = elim h [ ]

count_positive : (n : ℤ) → ltb_ℤ (pos 0) n ≡ true → 0 < pos_part n
count_positive (pos a) h = ground arith
count_positive (negsuc a) h = absurd (ground arith)

pick_by_bucket-eq :
    (n : ℤ) (key : Time → ℕ) (sorted : List RunRecord) (set : List String)
    → 0 < pos_part n
    → pick_by_bucket n key sorted set
      ≡ mark id_of (take (pos_part n) (firsts_from (λ (r : RunRecord). key r.time) [] sorted)) set
unfolding pick_by_bucket
pick_by_bucket-eq n key sorted set h =
    rw (positive_count n h) (pick_loop-eq key (pos_part n) [] sorted set h)

pick_by_bucket_old :
    (n : ℤ) (key : Time → ℕ) (sorted : List RunRecord) (set : List String) (x : String)
    → contains set x ≡ true
    → contains (pick_by_bucket n key sorted set) x ≡ true
pick_by_bucket_old n key sorted set x h = elim (Bool-cases (ltb_ℤ (pos 0) n)) [
  | inl p ↦ rw (pick_by_bucket-eq n key sorted set (count_positive n p)) (mark_old id_of _ set x h)
  | inr q ↦ unfold pick_by_bucket in rw q h
]

pick_by_bucket_new :
    (n : ℤ) (key : Time → ℕ) (sorted : List RunRecord) (set : List String) (r : RunRecord)
    → 0 < pos_part n
    → Memᴰ r (take (pos_part n) (firsts_from (λ (x : RunRecord). key x.time) [] sorted))
    → contains (pick_by_bucket n key sorted set) r.id ≡ true
pick_by_bucket_new n key sorted set r h m =
    rw (pick_by_bucket-eq n key sorted set h) (mark_new id_of set m)

-- The newest records that a class asks for are in the keep set.
pub keep_ids-class :
    (c : Class) (sorted : List RunRecord) (p : RetentionPolicy) (r : RunRecord)
    → 0 < pos_part (class_count c p)
    → Memᴰ r (take (pos_part (class_count c p)) (buckets c sorted))
    → contains (keep_ids sorted p) r.id ≡ true
unfolding keep_ids
keep_ids-class daily sorted p r h m = search (pick_by_bucket_old, pick_by_bucket_new)
keep_ids-class weekly sorted p r h m = search (pick_by_bucket_old, pick_by_bucket_new)
keep_ids-class monthly sorted p r h m = search (pick_by_bucket_old, pick_by_bucket_new)
keep_ids-class yearly sorted p r h m = search (pick_by_bucket_old, pick_by_bucket_new)

mark_last_new :
    (n : ℤ) (sorted : List RunRecord) (set : List String) (r : RunRecord)
    → 0 < pos_part n
    → Memᴰ r (take (pos_part n) sorted)
    → contains (mark_last n sorted set) r.id ≡ true
unfolding mark_last
mark_last_new n sorted set r h m = rw (positive_count n h) (mark_new id_of set m)

pub keep_ids_last :
    (sorted : List RunRecord) (p : RetentionPolicy) (r : RunRecord)
    → 0 < pos_part p.keep_last_n
    → Memᴰ r (take (pos_part p.keep_last_n) sorted)
    → contains (keep_ids sorted p) r.id ≡ true
unfolding keep_ids
keep_ids_last sorted p r h m = search (pick_by_bucket_old, mark_last_new)
