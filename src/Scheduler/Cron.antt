-- ===== src/Scheduler/Cron.antt =====
-- internal/host/scheduler/cron.go: cron fields, the match of a minute, and the search for the next
-- minute that matches. The `*time.Location` is the clock, whose times are `I`.
pub mod Skips
pub mod Next
pub mod Located
pub mod Fire
pub mod Parse
pub mod Ranges
mod RangeFuel
pub mod Items
pub mod Meaning
pub mod Matches
pub mod Total
use nova_nas.Base.{
  ℕ, zero, suc, ◌+◌, Bool, true, false, not, ◌&&◌, ◌||◌, Option, none, some, List, [], ◌∷◌, ltb,
  leb, if◌then◌else◌, ℤ, pos, ltb_ℤ, eqb_ℤ,
}
use nova_nas.Calendar.{Time, weekday, Clock}

pub record CronField : Type 0 where
  pub wildcard : Bool
  pub values : List ℤ

-- `raw` only prints, and is left out.
pub record CronExpr : Type 0 where
  pub minute : CronField
  pub hour : CronField
  pub dom : CronField
  pub mon : CronField
  pub dow : CronField

-- The linear scan, which stops at the first larger value.
unfoldable pub scan : List ℤ → ℤ → Bool
scan [] v = false
scan (x ∷ xs) v =
    let rest = scan xs v in if eqb_ℤ x v then true else if ltb_ℤ v x then false else rest

unfoldable pub matches : CronField → ℕ → Bool
matches f v = if f.wildcard then true else scan f.values (pos v)

-- The `switch` on the two wildcards, which the source has twice.
unfoldable pub day_ok : CronExpr → Time → Bool
day_ok c t =
    let dom = matches c.dom t.day in
    let dow = matches c.dow (weekday t) in
    if c.dom.wildcard && c.dow.wildcard
    then true
    else if c.dom.wildcard
    then dow
    else if c.dow.wildcard
    then dom
    else dom || dow

unfoldable pub match_time : CronExpr → Time → Bool
match_time c t =
    if not (matches c.minute t.minute)
    then false
    else if not (matches c.hour t.hour)
    then false
    else if not (matches c.mon t.month)
    then false
    else day_ok c t

-- How the loop ends: with a time, past the last year, or (in the model only) without fuel.
pub data Search (I : Type 0) : Type 0 where
  found : I → Search I
  past_end : Search I
  out_of_fuel : Search I

-- The zero time, which says that nothing was found, is `none`.
abbrev pub to_option : {I : Type 0} → Search I → Option I
to_option (found t) = some t
to_option past_end = none
to_option out_of_fuel = none

-- More rounds than the loop can make where the offset is fixed: each moves on by a minute at least, within
-- nine years.
abbrev pub next_fuel : ℕ
next_fuel = 5_391_361

module _ {I : Type 0} (loc : Clock I) where
  unfoldable pub next_month_start : I → I
  next_month_start t =
      let w = loc.wall t in
      let midnight = record w { day = 1; hour = 0; minute = 0; nanos = 0 } in
      loc.date (
        if ltb 12 (w.month + 1)
        then record midnight { month = 1; year = w.year + 1 }
        else record midnight { month = w.month + 1 })

  unfoldable pub next_day_start : I → I
  next_day_start t =
      loc.date (record (loc.wall (loc.plus_day t)) { hour = 0; minute = 0; nanos = 0 })

  unfoldable pub next_hour_start : I → I
  next_hour_start t = loc.date (record (loc.wall (loc.plus_hour t)) { minute = 0; nanos = 0 })

  -- The loop of `NextAfter`.
  unfoldable pub next_from : ℕ → CronExpr → ℕ → I → Search I
  next_from zero c end_year t = out_of_fuel
  next_from (suc fuel) c end_year t =
      let w = loc.wall t in
      let in_month = next_from fuel c end_year (next_month_start t) in
      let in_day = next_from fuel c end_year (next_day_start t) in
      let in_hour = next_from fuel c end_year (next_hour_start t) in
      let in_minute = next_from fuel c end_year (loc.plus_minute t) in
      if not (leb w.year end_year)
      then past_end
      else if not (matches c.mon w.month)
      then in_month
      else if not (day_ok c w)
      then in_day
      else if not (matches c.hour w.hour)
      then in_hour
      else if not (matches c.minute w.minute)
      then in_minute
      else found t

  unfoldable pub search_after : CronExpr → I → Search I
  search_after c t =
      let start = loc.plus_minute (loc.to_minute t) in
      next_from next_fuel c ((loc.wall start).year + 8) start

  unfoldable pub next_after : CronExpr → I → Option I
  unfolding search_after
  next_after c t = to_option (search_after c t)

  -- A zero `prev` is `none`.
  unfoldable pub should_fire_between : CronExpr → Option I → I → Bool
  should_fire_between c none now = match_time c (loc.wall (loc.to_minute now))
  should_fire_between c (some prev) now =
      let now' = loc.to_minute now in
      let prev' = loc.to_minute prev in
      if not (loc.is_after now' prev')
      then false
      else elim (next_after c prev') [ none ↦ false | some next ↦ not (loc.is_after next now') ]
