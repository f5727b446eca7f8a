-- ===== src/Scheduler/Cron/Next.antt =====
-- `NextAfter` and `ShouldFireBetween` against `matchTime`.
use nova_nas.Base.{
  ℕ, zero, suc, ◌+◌, ◌*◌, ◌≤◌, ◌<◌, ◌≡◌, refl, ◌∙◌, inl, inr, true, false, arith, ltb, leb, leb→le,
  Bool-cases,
}
use nova_nas.Calendar.{
  fixed_clock, Time, IsTime, days_in_bounds, weekday, add_minute, minute_stamp, add_minute-IsTime,
  add_minute-later,
}
use nova_nas.Scheduler.Cron.{
  CronExpr, matches, day_ok, match_time, next_month_start, next_day_start, next_hour_start, Search,
  found, past_end, out_of_fuel, next_from,
}
use nova_nas.Scheduler.Cron.Skips.{
  next_month_start-IsTime, next_month_start-later, next_day_start-IsTime, next_day_start-later,
  next_hour_start-IsTime, next_hour_start-later, same_month, same_day, same_hour, same_minute,
}

-- No minute from `t` up to `s`, `s` left out, matches.
abbrev pub NoneBetween : CronExpr → Time → Time → Type 0
NoneBetween c t s =
    (u : Time)
    → IsTime u
    → minute_stamp t ≤ minute_stamp u
    → minute_stamp u < minute_stamp s
    → match_time c u ≡ false

-- What the loop may return when it goes on from `t`.
abbrev pub Correct : CronExpr → ℕ → Time → Search Time → Type 0
Correct c e t (found s) =
    IsTime s
    × (s.nanos ≡ 0)
    × (minute_stamp t ≤ minute_stamp s)
    × (s.year ≤ e)
    × (match_time c s ≡ true)
    × NoneBetween c t s
Correct c e t past_end =
    (u : Time) → IsTime u → minute_stamp t ≤ minute_stamp u → u.year ≤ e → match_time c u ≡ false
Correct c e t out_of_fuel = ⊥

abbrev pub SkipsNone : CronExpr → Time → Time → Type 0
SkipsNone c t s = (minute_stamp t < minute_stamp s) × NoneBetween c t s

-- A jump that passes over no match may be made first.
Correct-skip :
    (c : CronExpr) (e : ℕ) (t s : Time)
    → SkipsNone c t s
    → (r : Search Time) → Correct c e s r
    → Correct c e t r
Correct-skip c e t s (later, skips) (found x) (v, n, le, y, m, least) = (
  v,
  n,
  omega arith,
  y,
  m,
  λ u w from below. elim (Bool-cases (ltb (minute_stamp u) (minute_stamp s))) [
    | inl before ↦ skips u w from (ground arith)
    | inr beyond ↦ least u w (ground arith) below
  ],
)
Correct-skip c e t s (later, skips) past_end h = λ u w from y.
    elim (Bool-cases (ltb (minute_stamp u) (minute_stamp s))) [
      | inl before ↦ skips u w from (ground arith)
      | inr beyond ↦ h u w (ground arith) y
    ]
Correct-skip c e t s skip out_of_fuel h = h

module _ (c : CronExpr) {t : Time} (v : IsTime t) where
  skip_month : matches c.mon t.month ≡ false → SkipsNone c t (next_month_start fixed_clock t)
  unfolding match_time
  skip_month h = (
    next_month_start-later v,
    λ u w from below. let same = same_month v w from below in ground arith,
  )

  skip_day : day_ok c t ≡ false → SkipsNone c t (next_day_start fixed_clock t)
  unfolding match_time day_ok weekday
  skip_day h =
      (next_day_start-later v, λ u w from below. let same = same_day v w from below in ground arith)

  skip_hour : matches c.hour t.hour ≡ false → SkipsNone c t (next_hour_start fixed_clock t)
  unfolding match_time
  skip_hour h = (
    next_hour_start-later v,
    λ u w from below. let same = same_hour v w from below in ground arith,
  )

  skip_minute : matches c.minute t.minute ≡ false → SkipsNone c t (add_minute t)
  unfolding match_time
  skip_minute h = (
    (add_minute-later v).0,
    λ u w from below. let same = same_minute v w from below in ground arith,
  )

-- The number that the minutes of the years up to `e` do not reach.
stamp_bound : {t : Time} (e : ℕ) → IsTime t → t.year ≤ e → minute_stamp t < (e + 1) * 599_040
stamp_bound {t} e v h = ground (arith, days_in_bounds t.year t.month)

Correct-jump :
    (c : CronExpr) (e fuel : ℕ) {t : Time} (s : Time)
    → IsTime t
    → leb t.year e ≡ true
    → (e + 1) * 599_040 < minute_stamp t + suc fuel
    → ((e + 1) * 599_040 < minute_stamp s + fuel
        → 0 < fuel
        → Correct c e s (next_from fixed_clock fuel c e s))
    → SkipsNone c t s
    → Correct c e t (next_from fixed_clock fuel c e s)
Correct-jump c e fuel {t} s v within enough rest skip =
    Correct-skip c e t s skip _
      (rest (omega (arith, skip.0)) (omega (arith, stamp_bound e v (leb→le _ _ within))))

module _ (c : CronExpr) (e : ℕ) where
  -- With more fuel than minutes to the end of the last year, the loop ends and is right.
  pub next_from-Correct :
      (fuel : ℕ) (t : Time)
      → IsTime t
      → t.nanos ≡ 0
      → (e + 1) * 599_040 < minute_stamp t + fuel
      → 0 < fuel
      → Correct c e t (next_from fixed_clock fuel c e t)
  unfolding next_from
  next_from-Correct zero t v z enough pos = elim pos [ ]
  next_from-Correct (suc fuel) t v z enough pos = elim (Bool-cases (leb t.year e)) [
    | inr over ↦ rw over (λ u w from y.
        absurd (ground (arith, days_in_bounds t.year t.month, days_in_bounds u.year u.month)))
    | inl within ↦ elim (Bool-cases (matches c.mon t.month)) [
      | inr e₁ ↦
          rw (within, e₁)
            (Correct-jump c e fuel (next_month_start fixed_clock t) v within enough
              (next_from-Correct fuel (next_month_start fixed_clock t) (next_month_start-IsTime v)
                (unfold next_month_start in ground arith))
              (skip_month c v e₁))
      | inl o₁ ↦ elim (Bool-cases (day_ok c t)) [
        | inr e₂ ↦
            rw (within, o₁, e₂)
              (Correct-jump c e fuel (next_day_start fixed_clock t) v within enough
                (next_from-Correct fuel (next_day_start fixed_clock t) (next_day_start-IsTime v)
                  (unfold next_day_start in refl))
                (skip_day c v e₂))
        | inl o₂ ↦ elim (Bool-cases (matches c.hour t.hour)) [
          | inr e₃ ↦
              rw (within, o₁, o₂, e₃)
                (Correct-jump c e fuel (next_hour_start fixed_clock t) v within enough
                  (next_from-Correct fuel (next_hour_start fixed_clock t) (next_hour_start-IsTime v)
                    (unfold next_hour_start in refl))
                  (skip_hour c v e₃))
          | inl o₃ ↦ elim (Bool-cases (matches c.minute t.minute)) [
            | inr e₄ ↦
                rw (within, o₁, o₂, o₃, e₄)
                  (Correct-jump c e fuel (add_minute t) v within enough
                    (next_from-Correct fuel (add_minute t) (add_minute-IsTime v)
                      ((add_minute-later v).1 ∙ z))
                    (skip_minute c v e₄))
            | inl o₄ ↦
                rw (within, o₁, o₂, o₃, o₄)
                  (
                    v,
                    z,
                    omega arith,
                    ground arith,
                    unfold match_time in ground arith,
                    λ u w from below. absurd (omega arith),
                  )
          ]
        ]
      ]
    ]
  ]
