-- ===== src/Replication/Retention.antt =====
-- internal/replication/retention.go: which runs or backup objects a policy keeps. The bucket keys, texts
-- of digits in the source, are the numbers that those digits write. `sort.Slice` may leave records of one
-- instant in any order; the model leaves them in the order given.
pub mod Laws
pub mod Keeps
use Prim.Native.String.{String}
use nova_nas.Base.{
  ℕ, ◌+◌, ◌-◌, ◌*◌, Bool, true, false, ◌&&◌, ◌||◌, List, [], ◌∷◌, ltb, ◌==◌, if◌then◌else◌, ℤ, pos,
  negsuc, pos_part, ltb_ℤ, eqb_ℤ, length, take, contains, string_eq, nat_eq, sort_stable,
  partition_if, mark, suc,
}
use nova_nas.Calendar.{Time, iso_week, after}

-- internal/replication/replication.go
pub record RetentionPolicy : Type 0 where
  pub keep_last_n : ℤ
  pub keep_daily : ℤ
  pub keep_weekly : ℤ
  pub keep_monthly : ℤ
  pub keep_yearly : ℤ

pub record RunRecord : Type 0 where
  pub id : String
  pub time : Time

unfoldable pub is_zero : RetentionPolicy → Bool
is_zero r =
    eqb_ℤ r.keep_last_n (pos 0)
    && eqb_ℤ r.keep_daily (pos 0)
    && eqb_ℤ r.keep_weekly (pos 0)
    && eqb_ℤ r.keep_monthly (pos 0)
    && eqb_ℤ r.keep_yearly (pos 0)

unfoldable pub daily_key : Time → ℕ
daily_key t = (t.year * 100 + t.month) * 100 + t.day

unfoldable pub weekly_key : Time → ℕ
weekly_key t = let (y, w) = iso_week t in y * 100 + w

unfoldable pub monthly_key : Time → ℕ
monthly_key t = t.year * 100 + t.month

unfoldable pub yearly_key : Time → ℕ
yearly_key t = t.year

-- `sorted[i].Time.After(sorted[j].Time)`
abbrev pub newer : RunRecord → RunRecord → Bool
newer a b = after a.time b.time

abbrev pub id_of : RunRecord → String
id_of r = r.id

-- The "keep last N" loop.
unfoldable pub mark_last : ℤ → List RunRecord → List String → List String
mark_last n sorted keep_set =
    if ltb_ℤ (pos 0) n then mark id_of (take (pos_part n) sorted) keep_set else keep_set

-- The loop of `pickByBucket`, where `want` is how many it may still pick, not 0.
unfoldable pub pick_loop : (Time → ℕ) → ℕ → List ℕ → List RunRecord → List String → List String
pick_loop key want seen [] keep_set = keep_set
pick_loop key want seen (r ∷ rs) keep_set =
    let skipped = pick_loop key want seen rs keep_set in
    let rest = pick_loop key (want - 1) (key r.time ∷ seen) rs (r.id ∷ keep_set) in
    if contains seen (key r.time) then skipped else if ltb 1 want then rest else r.id ∷ keep_set

unfoldable pub pick_by_bucket : ℤ → (Time → ℕ) → List RunRecord → List String → List String
pick_by_bucket want key sorted keep_set =
    if ltb_ℤ (pos 0) want then pick_loop key (pos_part want) [] sorted keep_set else keep_set

unfoldable pub keep_ids : List RunRecord → RetentionPolicy → List String
keep_ids sorted policy = pick_by_bucket policy.keep_yearly yearly_key sorted (
    pick_by_bucket policy.keep_monthly monthly_key sorted (
      pick_by_bucket policy.keep_weekly weekly_key sorted (
        pick_by_bucket policy.keep_daily daily_key sorted
          (mark_last policy.keep_last_n sorted []))))

-- The kept records and the dropped ones.
unfoldable pub retention_apply : List RunRecord → RetentionPolicy → List RunRecord × List RunRecord
retention_apply records policy =
    if is_zero policy || length records == 0
    then (records, [])
    else let sorted = sort_stable newer records in
      let keep_set = keep_ids sorted policy in partition_if (λ r. contains keep_set r.id) sorted
