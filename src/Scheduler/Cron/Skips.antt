-- ===== src/Scheduler/Cron/Skips.antt =====
-- Each jump of `NextAfter` goes forward and passes over no minute that matches.
use nova_nas.Base.{◌+◌, ◌≤◌, ◌<◌, ◌≡◌, arith}
use nova_nas.Calendar.{
  fixed_clock, Time, IsTime, days_in_bounds, add_day, add_hour, add_minute, minute_stamp,
}
use nova_nas.Scheduler.Cron.{next_month_start, next_day_start, next_hour_start}

module _ {t : Time} (v : IsTime t) where
  pub next_month_start-IsTime : IsTime (next_month_start fixed_clock t)
  unfolding next_month_start
  next_month_start-IsTime =
      ground (arith, days_in_bounds t.year (t.month + 1), days_in_bounds (t.year + 1) 1)

  pub next_month_start-later : minute_stamp t < minute_stamp (next_month_start fixed_clock t)
  unfolding next_month_start
  next_month_start-later = ground (arith, days_in_bounds t.year t.month)

  pub next_day_start-IsTime : IsTime (next_day_start fixed_clock t)
  unfolding next_day_start add_day
  next_day_start-IsTime =
      ground (arith, days_in_bounds t.year (t.month + 1), days_in_bounds (t.year + 1) 1)

  pub next_day_start-later : minute_stamp t < minute_stamp (next_day_start fixed_clock t)
  unfolding next_day_start add_day
  next_day_start-later = ground (arith, days_in_bounds t.year t.month)

  pub next_hour_start-IsTime : IsTime (next_hour_start fixed_clock t)
  unfolding next_hour_start add_hour
  next_hour_start-IsTime =
      ground (arith, days_in_bounds t.year (t.month + 1), days_in_bounds (t.year + 1) 1)

  pub next_hour_start-later : minute_stamp t < minute_stamp (next_hour_start fixed_clock t)
  unfolding next_hour_start add_hour
  next_hour_start-later = ground (arith, days_in_bounds t.year t.month)

module _ {t u : Time} (v : IsTime t) (w : IsTime u) (from : minute_stamp t ≤ minute_stamp u) where
  -- What lies before the next month is in this month; so for the day and the hour.
  pub same_month :
      minute_stamp u < minute_stamp (next_month_start fixed_clock t)
      → (u.year ≡ t.year) × (u.month ≡ t.month)
  unfolding next_month_start
  same_month h = ground (arith, days_in_bounds t.year t.month, days_in_bounds u.year u.month)

  pub same_day :
      minute_stamp u < minute_stamp (next_day_start fixed_clock t)
      → (u.year ≡ t.year) × (u.month ≡ t.month) × (u.day ≡ t.day)
  unfolding next_day_start add_day
  same_day h = ground (arith, days_in_bounds t.year t.month, days_in_bounds u.year u.month)

  pub same_hour :
      minute_stamp u < minute_stamp (next_hour_start fixed_clock t)
      → (u.year ≡ t.year) × (u.month ≡ t.month) × (u.day ≡ t.day) × (u.hour ≡ t.hour)
  unfolding next_hour_start add_hour
  same_hour h = ground (arith, days_in_bounds t.year t.month, days_in_bounds u.year u.month)

  pub same_minute :
      minute_stamp u < minute_stamp (add_minute t)
      → (u.year ≡ t.year)
        × (u.month ≡ t.month)
        × (u.day ≡ t.day)
        × (u.hour ≡ t.hour)
        × (u.minute ≡ t.minute)
  unfolding add_minute
  same_minute h = ground (arith, days_in_bounds t.year t.month, days_in_bounds u.year u.month)
