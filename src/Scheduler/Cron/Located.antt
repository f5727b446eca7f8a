-- ===== src/Scheduler/Cron/Located.antt =====
-- The search of internal/host/scheduler/cron.go in a location: with a fixed offset it is the search on the fields,
-- and where the clock goes back it may not end.
use mathlib.Core.Option.{map}
use nova_nas.Base.{
  ℕ, zero, suc, ◌+◌, ◌≡◌, refl, ap, sym, ◌∙◌, inl, inr, Bool, true, false, not, Option, none, some,
  leb, arith, Bool-cases,
}
use nova_nas.Calendar.{
  Time, IsTime, Clock, fixed_clock, truncate, add_minute, add_hour, add_day, after,
  add_minute-IsTime,
}
use nova_nas.Scheduler.Cron.{
  CronExpr, matches, day_ok, next_month_start, next_day_start, next_hour_start, Search, found,
  past_end, out_of_fuel, next_from, next_fuel, to_option, search_after, next_after,
  should_fire_between,
}
use nova_nas.Scheduler.Cron.Skips.{
  next_month_start-IsTime, next_day_start-IsTime, next_hour_start-IsTime,
}

-- What package `time` promises of a location with a fixed offset (in whole minutes): the fields of a sum are those
-- of the calendar, `time.Date` has the fields of a real date and time that it is given, and times are ordered
-- as their fields.
pub record IsFixed {I : Type 0} (loc : Clock I) : Type 0 where
  pub wall-date : (w : Time) → IsTime w → loc.wall (loc.date w) ≡ w
  pub wall-to_minute : (t : I) → loc.wall (loc.to_minute t) ≡ truncate (loc.wall t)
  pub wall-plus_minute : (t : I) → loc.wall (loc.plus_minute t) ≡ add_minute (loc.wall t)
  pub wall-plus_hour : (t : I) → loc.wall (loc.plus_hour t) ≡ add_hour (loc.wall t)
  pub wall-plus_day : (t : I) → loc.wall (loc.plus_day t) ≡ add_day (loc.wall t)
  pub is_after-wall : (a b : I) → loc.is_after a b ≡ after (loc.wall a) (loc.wall b)

pub truncate-IsTime : {t : Time} → IsTime t → IsTime (truncate t)
unfolding truncate
truncate-IsTime v = ground arith

-- The fields of what a search finds.
abbrev pub wall_of : {I : Type 0} → Clock I → Search I → Search Time
wall_of loc (found t) = found (loc.wall t)
wall_of loc past_end = past_end
wall_of loc out_of_fuel = out_of_fuel

module _ {I : Type 0} (loc : Clock I) (fixed : IsFixed loc) where
  month-wall :
      (t : I)
      → IsTime (loc.wall t)
      → loc.wall (next_month_start loc t) ≡ next_month_start fixed_clock (loc.wall t)
  unfolding next_month_start
  month-wall t v =
      fixed.wall-date (next_month_start fixed_clock (loc.wall t)) (next_month_start-IsTime v)

  day-wall :
      (t : I)
      → IsTime (loc.wall t)
      → loc.wall (next_day_start loc t) ≡ next_day_start fixed_clock (loc.wall t)
  unfolding next_day_start
  day-wall t v =
      ap (λ (w : Time). loc.wall (loc.date (record w { hour = 0; minute = 0; nanos = 0 })))
        (fixed.wall-plus_day t)
      ∙ fixed.wall-date (next_day_start fixed_clock (loc.wall t)) (next_day_start-IsTime v)

  hour-wall :
      (t : I)
      → IsTime (loc.wall t)
      → loc.wall (next_hour_start loc t) ≡ next_hour_start fixed_clock (loc.wall t)
  unfolding next_hour_start
  hour-wall t v =
      ap (λ (w : Time). loc.wall (loc.date (record w { minute = 0; nanos = 0 })))
        (fixed.wall-plus_hour t)
      ∙ fixed.wall-date (next_hour_start fixed_clock (loc.wall t)) (next_hour_start-IsTime v)

  -- A round that goes on from `s`.
  from-wall :
      (fuel : ℕ) (c : CronExpr) (e : ℕ) (s : I) (w : Time)
      → loc.wall s ≡ w
      → IsTime w
      → ((t : I)
          → IsTime (loc.wall t)
          → wall_of loc (next_from loc fuel c e t) ≡ next_from fixed_clock fuel c e (loc.wall t))
      → wall_of loc (next_from loc fuel c e s) ≡ next_from fixed_clock fuel c e w
  from-wall fuel c e s w same v rest = rest s (rw same v) ∙ ap (next_from fixed_clock fuel c e) same

  next_from-wall :
      (fuel : ℕ) (c : CronExpr) (e : ℕ) (t : I)
      → IsTime (loc.wall t)
      → wall_of loc (next_from loc fuel c e t) ≡ next_from fixed_clock fuel c e (loc.wall t)
  unfolding next_from
  next_from-wall zero c e t v = refl
  next_from-wall (suc fuel) c e t v =
      let w = loc.wall t in
      let rest = λ (s : I) (u : IsTime (loc.wall s)). next_from-wall fuel c e s u in
      elim (Bool-cases (leb w.year e)) [
        | inr over ↦ rw over refl
        | inl within ↦ elim (Bool-cases (matches c.mon w.month)) [
          | inr e₁ ↦
              rw (within, e₁)
                (from-wall fuel c e (next_month_start loc t) _ (month-wall t v)
                  (next_month_start-IsTime v) rest)
          | inl o₁ ↦ elim (Bool-cases (day_ok c w)) [
            | inr e₂ ↦
                rw (within, o₁, e₂)
                  (from-wall fuel c e (next_day_start loc t) _ (day-wall t v)
                    (next_day_start-IsTime v) rest)
            | inl o₂ ↦ elim (Bool-cases (matches c.hour w.hour)) [
              | inr e₃ ↦
                  rw (within, o₁, o₂, e₃)
                    (from-wall fuel c e (next_hour_start loc t) _ (hour-wall t v)
                      (next_hour_start-IsTime v) rest)
              | inl o₃ ↦ elim (Bool-cases (matches c.minute w.minute)) [
                | inr e₄ ↦
                    rw (within, o₁, o₂, o₃, e₄)
                      (from-wall fuel c e (loc.plus_minute t) _ (fixed.wall-plus_minute t)
                        (add_minute-IsTime v) rest)
                | inl o₄ ↦ rw (within, o₁, o₂, o₃, o₄) refl
              ]
            ]
          ]
        ]
      ]

  to_option-wall : (r : Search I) → map loc.wall (to_option r) ≡ to_option (wall_of loc r)
  to_option-wall (found t) = refl
  to_option-wall past_end = refl
  to_option-wall out_of_fuel = refl

  pub next_after-wall :
      (c : CronExpr) (t : I)
      → IsTime (loc.wall t)
      → map loc.wall (next_after loc c t) ≡ next_after fixed_clock c (loc.wall t)
  unfolding next_after search_after
  next_after-wall c t v =
      let start = loc.plus_minute (loc.to_minute t) in
      let w = add_minute (truncate (loc.wall t)) in
      let same : (loc.wall start ≡ w) =
        fixed.wall-plus_minute (loc.to_minute t) ∙ ap add_minute (fixed.wall-to_minute t) in
      to_option-wall (search_after loc c t)
      ∙ ap to_option (
          ap (λ (u : Time). wall_of loc (next_from loc next_fuel c (u.year + 8) start)) same
          ∙ from-wall next_fuel c (w.year + 8) start w same (add_minute-IsTime (truncate-IsTime v))
              (next_from-wall next_fuel c (w.year + 8)))

  -- Whether what was found, if anything, is no later than now.
  abbrev reached : {J : Type 0} → Clock J → J → Option J → Bool
  reached k now none = false
  reached k now (some next) = not (k.is_after next now)

  reached-wall :
      (now : I) (o : Option I)
      → reached loc now o ≡ reached fixed_clock (loc.wall now) (map loc.wall o)
  reached-wall now none = refl
  reached-wall now (some next) = ap not (fixed.is_after-wall next now)

  pub should_fire_between-wall :
      (c : CronExpr) (prev now : I)
      → IsTime (loc.wall prev)
      → should_fire_between loc c (some prev) now
        ≡ should_fire_between fixed_clock c (some (loc.wall prev)) (loc.wall now)
  unfolding should_fire_between
  should_fire_between-wall c prev now v =
      let now' = loc.to_minute now in
      let prev' = loc.to_minute prev in
      let now_same = fixed.wall-to_minute now in
      let prev_same = fixed.wall-to_minute prev in
      let later =
        fixed.is_after-wall now' prev'
        ∙ ap (λ a. after a (loc.wall prev')) now_same
        ∙ ap (after (truncate (loc.wall now))) prev_same in
      let next =
        reached-wall now' (next_after loc c prev')
        ∙ ap (reached fixed_clock (loc.wall now'))
            (next_after-wall c prev' (rw prev_same (truncate-IsTime v)))
        ∙ ap (λ n. reached fixed_clock n (next_after fixed_clock c (loc.wall prev'))) now_same
        ∙ ap (λ p. reached fixed_clock (truncate (loc.wall now)) (next_after fixed_clock c p))
            prev_same in
      elim (Bool-cases (loc.is_after now' prev')) [
        | inl over ↦ rw (over, sym later ∙ over) next
        | inr early ↦ rw (early, sym later ∙ early) refl
      ]

pub next_from-stuck :
    {I : Type 0} (loc : Clock I) (c : CronExpr) (end_year : ℕ) (t : I)
    → leb (loc.wall t).year end_year ≡ true
    → matches c.mon (loc.wall t).month ≡ true
    → day_ok c (loc.wall t) ≡ true
    → matches c.hour (loc.wall t).hour ≡ false
    → loc.date (record (loc.wall (loc.plus_hour t)) { minute = 0; nanos = 0 }) ≡ t
    → (fuel : ℕ) → next_from loc fuel c end_year t ≡ out_of_fuel
unfolding next_from next_hour_start
next_from-stuck loc c end_year t y m d h back zero = refl
next_from-stuck loc c end_year t y m d h back (suc fuel) =
    rw (y, m, d, h)
      (ap (next_from loc fuel c end_year) back ∙ next_from-stuck loc c end_year t y m d h back fuel)
