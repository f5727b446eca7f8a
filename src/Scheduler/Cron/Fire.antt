-- ===== src/Scheduler/Cron/Fire.antt =====
-- `NextAfter` and `ShouldFireBetween` of internal/host/scheduler/cron.go against `matchTime`, in a location with a
-- fixed offset.
use nova_nas.Base.{
  ℕ, ◌+◌, ◌≤◌, ◌<◌, ◌≡◌, ◌↔◌, inl, inr, true, false, Option, none, some, arith, ltb, Bool-cases,
  Option-cases,
}
use nova_nas.Calendar.{
  Time, IsTime, Clock, fixed_clock, truncate, add_minute, minute_stamp, add_minute-IsTime,
  add_minute-later, add_minute-next,
}
use nova_nas.Scheduler.Cron.{
  CronExpr, match_time, Search, found, past_end, out_of_fuel, next_fuel, to_option, search_after,
  next_after, should_fire_between,
}
use mathlib.Core.Option.{map}
use nova_nas.Scheduler.Cron.Next.{Correct, next_from-Correct}
use nova_nas.Scheduler.Cron.Located.{
  IsFixed, truncate-IsTime, next_after-wall, should_fire_between-wall,
}

-- The last year in which the search after `t` looks.
pub horizon : Time → ℕ
horizon t = (add_minute (truncate t)).year + 8

-- `s` is the first minute after the minute of `t` that matches; `none` says that there is none up to
-- the end of the last year.
abbrev pub IsNext : CronExpr → Time → Option Time → Type 0
IsNext c t (some s) =
    IsTime s
    × (s.nanos ≡ 0)
    × (minute_stamp t < minute_stamp s)
    × (s.year ≤ horizon t)
    × (match_time c s ≡ true)
    × ((u : Time)
        → IsTime u
        → minute_stamp t < minute_stamp u
        → match_time c u ≡ true
        → minute_stamp s ≤ minute_stamp u)
IsNext c t none =
    (u : Time)
    → IsTime u
    → minute_stamp t < minute_stamp u
    → u.year ≤ horizon t
    → match_time c u ≡ false

module _ (c : CronExpr) {t : Time} (v : IsTime t) where
  start_later : minute_stamp t < minute_stamp (add_minute (truncate t))
  unfolding truncate
  start_later = (add_minute-later (truncate-IsTime v)).0

  start_next :
      {u : Time}
      → IsTime u
      → minute_stamp t < minute_stamp u
      → minute_stamp (add_minute (truncate t)) ≤ minute_stamp u
  unfolding truncate
  start_next w h = add_minute-next (truncate-IsTime v) w h

  start_nanos : (add_minute (truncate t)).nanos ≡ 0
  unfolding truncate
  start_nanos = (add_minute-later (truncate-IsTime v)).1

  Correct-IsNext :
      (r : Search Time)
      → Correct c (horizon t) (add_minute (truncate t)) r
      → IsNext c t (to_option r)
  Correct-IsNext (found s) (w, z, le, y, m, least) = (
    w,
    z,
    omega (arith, start_later),
    y,
    m,
    λ u w' h q. elim (Bool-cases (ltb (minute_stamp u) (minute_stamp s))) [
      | inl before ↦ cc (q, least u w' (start_next w' h) (ground arith))
      | inr beyond ↦ ground arith
    ],
  )
  Correct-IsNext past_end none_left = λ u w h y. none_left u w (start_next w h) y
  Correct-IsNext out_of_fuel h = absurd h

  next_after_fixed : IsNext c t (next_after fixed_clock c t)
  unfolding next_after search_after horizon
  next_after_fixed = Correct-IsNext _ (
      next_from-Correct c (horizon t) next_fuel (add_minute (truncate t))
        (add_minute-IsTime (truncate-IsTime v)) start_nanos (omega arith) (omega arith))

module _ {I : Type 0} (loc : Clock I) (fixed : IsFixed loc) (c : CronExpr) where
  pub next_after-IsNext :
      (t : I) → IsTime (loc.wall t) → IsNext c (loc.wall t) (map loc.wall (next_after loc c t))
  next_after-IsNext t v = rw (next_after-wall loc fixed c t v) (next_after_fixed c v)

-- Some minute in `(prev, now]` matches, within the years that the search looks at.
abbrev pub FiredBetween : CronExpr → Time → Time → Type 0
FiredBetween c prev now =
    (m : Time) × IsTime m
    × (minute_stamp prev < minute_stamp m)
    × (minute_stamp m ≤ minute_stamp now)
    × (m.year ≤ horizon prev)
    × (match_time c m ≡ true)

module _ (c : CronExpr) {prev now : Time} (v : IsTime prev) (w : IsTime now) where
  IsNext-is :
      {r : Option Time} → next_after fixed_clock c (truncate prev) ≡ r → IsNext c (truncate prev) r
  IsNext-is e = rw e at (next_after_fixed c (truncate-IsTime v))

  fired_sound : should_fire_between fixed_clock c (some prev) now ≡ true → FiredBetween c prev now
  unfolding should_fire_between truncate horizon
  fired_sound h = elim (Option-cases (next_after fixed_clock c (truncate prev))) [
    | inl e ↦ absurd (ground arith)
    | inr (s, e) ↦
        let (vs, z, later, y, q, least) = IsNext-is e in (s, vs, later, ground arith, y, q)
  ]

  fired_complete :
      FiredBetween c prev now → should_fire_between fixed_clock c (some prev) now ≡ true
  unfolding should_fire_between truncate horizon
  fired_complete (m, vm, later, le, y, q) =
      elim (Option-cases (next_after fixed_clock c (truncate prev))) [
        | inl e ↦ cc (q, IsNext-is e m vm later y)
        | inr (s, e) ↦
            let (vs, z, after_prev, y', q', least) = IsNext-is e in
            let first : minute_stamp s ≤ minute_stamp m = least m vm later q in ground arith
      ]

-- `ShouldFireBetween` says yes exactly when some minute in `(prev, now]` matches, provided that
-- minute lies within the years that the search looks at: in a location with a fixed offset.
pub should_fire_between_iff :
    {I : Type 0} (loc : Clock I)
    → IsFixed loc
    → (c : CronExpr) (prev now : I) → IsTime (loc.wall prev)
    → IsTime (loc.wall now)
    → (should_fire_between loc c (some prev) now ≡ true)
      ↔ FiredBetween c (loc.wall prev) (loc.wall now)
should_fire_between_iff loc fixed c prev now v w =
    rw (should_fire_between-wall loc fixed c prev now v) (fired_sound c v w, fired_complete c v w)
