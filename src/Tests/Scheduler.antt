-- ===== src/Tests/Scheduler.antt =====
-- The theorems on internal/host/scheduler, at concrete inputs.
use nova_nas.Base.{
  ℕ, zero, suc, ◌+◌, ◌==◌, ◌&&◌, ◌||◌, not, ltb, if◌then◌else◌, Bool, ◌≤◌, ◌<◌, ◌≡◌, ◌≢◌, ◌↔◌, refl,
  arith, codes, ok, err, some, true, false, List, [], ◌∷◌, ◌++◌, pos, text_eq, text_beq, split, cut,
  atoi,
}
use mathlib.Core.Option.{map}
use nova_nas.Calendar.{Time, IsTime, Clock, fixed_clock, days_in, add_hour, truncate, after, stamp}
use nova_nas.Scheduler.Cron.{
  CronField, CronExpr, matches, scan, day_ok, next_after, should_fire_between, next_from,
  next_hour_start, next_fuel, out_of_fuel,
}
use nova_nas.Scheduler.Cron.Located.{IsFixed, next_from-stuck}
use nova_nas.Scheduler.Cron.Fire.{IsNext, next_after-IsNext, FiredBetween, should_fire_between_iff}
use nova_nas.Scheduler.Cron.Parse.{
  parse_field, rng_minute, rng_dom, parse_items, parse_item, parse_step, parse_body, add_checked,
  add_range, no_fuel,
}
use nova_nas.Scheduler.Cron.Items.{AllFit, parse_field_in_range}
use nova_nas.Scheduler.Cron.Meaning.{SomeMeans, parse_field_means}
use nova_nas.Scheduler.Cron.Total.{parse_field_total}
use nova_nas.Scheduler.Retention.{RetentionPolicy, SnapInfo}
use nova_nas.Scheduler.SnapTime.{format_snap_time, parsed_snap_time}
use nova_nas.Scheduler.SnapTime.RoundTrip.{
  parsed_snap_time-format_snap_time, parsed_snap_time_sound,
}
use nova_nas.Scheduler.Manager.{Snapshot}
use nova_nas.Tests.{leap_day, new_year}

new_year-IsTime : IsTime new_year
unfolding days_in
new_year-IsTime = record {
  month_pos = omega arith;
  month_le = omega arith;
  day_pos = omega arith;
  day_le = omega arith;
  hour_lt = omega arith;
  minute_lt = omega arith;
  nanos_lt = omega arith;
}

abbrev pub spring : Time
spring = record { year = 2024; month = 3; day = 1; hour = 12; minute = 30; nanos = 0 }

pub spring-IsTime : IsTime spring
unfolding days_in
spring-IsTime = record {
  month_pos = omega arith;
  month_le = omega arith;
  day_pos = omega arith;
  day_le = omega arith;
  hour_lt = omega arith;
  minute_lt = omega arith;
  nanos_lt = omega arith;
}

fixed_clock-IsFixed : IsFixed fixed_clock
fixed_clock-IsFixed = record {
  wall-date = λ w v. refl;
  wall-to_minute = λ t. refl;
  wall-plus_minute = λ t. refl;
  wall-plus_hour = λ t. refl;
  wall-plus_day = λ t. refl;
  is_after-wall = λ a b. refl;
}

next_after-IsNext_example :
    IsNext leap_day new_year (map (λ t. t) (next_after fixed_clock leap_day new_year))
next_after-IsNext_example =
    next_after-IsNext fixed_clock fixed_clock-IsFixed leap_day new_year new_year-IsTime

should_fire_between_iff_example :
    (should_fire_between fixed_clock leap_day (some new_year) spring ≡ true)
    ↔ FiredBetween leap_day new_year spring
should_fire_between_iff_example =
    should_fire_between_iff fixed_clock fixed_clock-IsFixed leap_day new_year spring new_year-IsTime
      spring-IsTime

-- New York at the end of summer time: on 1 November 2026 the hour from 1 to 2 is there twice, and is the second
-- one where the mark is set. `time.Date` gives the first.
abbrev clocks_back : Time → Bool
clocks_back t = t.year == 2026 && t.month == 11 && t.day == 1 && t.hour == 1

abbrev hour_on : Time × Bool → Time × Bool
hour_on (t, second) = if clocks_back t && not second then (t, true) else (add_hour t, false)

abbrev minute_on : Time × Bool → Time × Bool
minute_on (t, second) =
    if ltb t.minute 59
    then (record t { minute = t.minute + 1 }, second)
    else hour_on (record t { minute = 0 }, second)

abbrev hours_on : ℕ → Time × Bool → Time × Bool
hours_on zero t = t
hours_on (suc n) t = hours_on n (hour_on t)

abbrev new_york : Clock (Time × Bool)
new_york = record {
  wall = λ t. t.0;
  date = λ w. (w, false);
  to_minute = λ t. (truncate t.0, t.1);
  plus_minute = minute_on;
  plus_hour = hour_on;
  plus_day = hours_on 24;
  is_after = λ a b. after a.0 b.0 || (stamp a.0 == stamp b.0 && a.1 && not b.1);
}

abbrev one_o_clock : Time × Bool
one_o_clock = (record { year = 2026; month = 11; day = 1; hour = 1; minute = 0; nanos = 0 }, false)

-- `0 2 * * *`
abbrev any_value : CronField
any_value = record { wildcard = true; values = [] }

abbrev at_two : CronExpr
at_two = record {
  minute = record { wildcard = false; values = pos 0 ∷ [] };
  hour = record { wildcard = false; values = pos 2 ∷ [] };
  dom = any_value;
  mon = any_value;
  dow = any_value;
}

next_from-stuck_example : next_from new_york next_fuel at_two 2034 one_o_clock ≡ out_of_fuel
unfolding matches scan day_ok next_hour_start
next_from-stuck_example =
    next_from-stuck new_york at_two 2034 one_o_clock refl refl refl refl refl next_fuel

abbrev fifth : CronField
fifth = record { wildcard = false; values = pos 1 ∷ pos 5 ∷ pos 9 ∷ [] }

fifth_parsed : parse_field (codes "5,1-10/4") rng_dom ≡ ok fifth
unfolding parse_field parse_items parse_item parse_step parse_body add_checked add_range split
    text_beq cut atoi
fifth_parsed = refl

fifth_fits : AllFit (split b',' (codes "5,1-10/4"))
unfolding parse_step split cut atoi
fifth_fits = (omega arith, (omega arith, tt))

parse_field_means_example :
    (matches fifth 9 ≡ true) ↔ SomeMeans rng_dom (split b',' (codes "5,1-10/4")) 9
unfolding text_beq
parse_field_means_example =
    parse_field_means rng_dom (codes "5,1-10/4") fifth (omega arith) (omega arith) refl fifth_fits
      fifth_parsed 9

fifth-matches : matches fifth 9 ≡ true
unfolding matches scan
fifth-matches = refl

parse_field_in_range_example : (1 ≤ 9) × (9 ≤ 31)
unfolding text_beq
parse_field_in_range_example =
    parse_field_in_range rng_dom (omega arith) (omega arith) (codes "5,1-10/4") fifth refl
      fifth_fits fifth_parsed 9 fifth-matches

parse_field_total_example : parse_field (codes "*/7") rng_minute ≢ err no_fuel
parse_field_total_example = parse_field_total rng_minute (omega arith) (omega arith) (codes "*/7")

-- Two days of snapshots of one dataset, and what is kept of them: one day.
abbrev pub at_day : ℕ → Time
at_day d = record { year = 2024; month = 3; day = d; hour = 6; minute = 15; nanos = 0 }

abbrev pub auto : ℕ → Snapshot
auto d = record {
  name = codes "tank/a@" ++ format_snap_time (codes "auto") (at_day d);
  dataset = codes "tank/a";
  short_name = format_snap_time (codes "auto") (at_day d);
}

abbrev pub one_day : RetentionPolicy
one_day = record { hourly = pos 0; daily = pos 1; weekly = pos 0; monthly = pos 0; yearly = pos 0 }

abbrev infos : List SnapInfo
infos =
    record { name = codes "a"; time = at_day 4 } ∷ record { name = codes "b"; time = at_day 5 } ∷ []

parsed_snap_time-format_snap_time_example :
    parsed_snap_time (format_snap_time (codes "auto") spring) (codes "auto")
    ≡ some (record spring { nanos = 0 })
parsed_snap_time-format_snap_time_example =
    parsed_snap_time-format_snap_time (codes "auto") spring spring-IsTime (omega arith)

parsed_snap_time_sound_example :
    (format_snap_time (codes "auto") spring ≡ format_snap_time (codes "auto") spring)
    × IsTime spring
    × (2024 < 10000)
    × (spring.nanos ≡ 0)
parsed_snap_time_sound_example =
    parsed_snap_time_sound (format_snap_time (codes "auto") spring) (codes "auto") spring
      (parsed_snap_time-format_snap_time (codes "auto") spring spring-IsTime (omega arith))
