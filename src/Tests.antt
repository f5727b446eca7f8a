-- ===== src/Tests.antt =====
-- Runs of the model on concrete inputs.
mod Scheduler
mod Names
mod Engine
mod Krb5
mod Csi
mod Package
mod Jobs
mod Plugins
mod Passes
mod Worker
mod Replication
use Prim.Native.Nat.{ℕ}
use nova_nas.Base.{
  ◌≡◌, refl, codes, ok, err, some, true, false, pos, negsuc, [], ◌∷◌, trim_space, atoi, fields,
  split, cut, text_beq,
}
use nova_nas.Calendar.{fixed_clock, Time, weekday, iso_week, is_leap, days_in, truncate, add_minute}
use nova_nas.Scheduler.Cron.{
  next_after, CronExpr, CronField, next_from, match_time, matches, scan, day_ok, next_month_start,
  next_day_start, next_hour_start,
}
use nova_nas.Scheduler.Cron.Parse.{
  parse_cron, parse_field, rng_dom, rng_minute, add_range, parse_items, parse_item, parse_step,
  parse_body, add_checked, out_of_range,
}

abbrev pub new_year : Time
new_year = record { year = 2021; month = 1; day = 3; hour = 0; minute = 0; nanos = 5 }

new_year-weekday : weekday new_year ≡ 0
unfolding weekday
new_year-weekday = refl

new_year_week : iso_week new_year ≡ (2020, 53)
unfolding iso_week
new_year_week = refl

stepped_range :
    parse_field (codes "5,1-10/4") rng_dom
    ≡ ok (record { wildcard = false; values = pos 1 ∷ pos 5 ∷ pos 9 ∷ [] })
unfolding parse_field parse_items parse_item parse_step parse_body add_checked add_range split
    text_beq cut atoi
stepped_range = refl

above_range : parse_field (codes "60") rng_minute ≡ err out_of_range
unfolding parse_field parse_items parse_item parse_step parse_body add_checked add_range split
    text_beq cut atoi
above_range = refl

abbrev pub leap_day : CronExpr
leap_day = record {
  minute = record { wildcard = false; values = pos 0 ∷ [] };
  hour = record { wildcard = false; values = pos 0 ∷ [] };
  dom = record { wildcard = false; values = pos 29 ∷ [] };
  mon = record { wildcard = false; values = pos 2 ∷ [] };
  dow = record { wildcard = true; values = [] };
}

leap_day_text : parse_cron (codes "0 0 29 2 *") ≡ ok leap_day
unfolding parse_cron parse_items parse_item parse_step parse_body add_checked add_range split
    text_beq cut atoi fields trim_space
leap_day_text = refl

leap_day_next :
    next_after fixed_clock leap_day new_year
    ≡ some (record { year = 2024; month = 2; day = 29; hour = 0; minute = 0; nanos = 0 })
unfolding next_after next_from matches scan day_ok weekday truncate add_minute next_month_start
    next_day_start next_hour_start days_in
leap_day_next = refl
