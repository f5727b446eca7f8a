-- ===== src/Calendar/Steps.antt =====
-- A step in time gives a real time, later than where it began; a minute's step skips no minute.
use nova_nas.Base.{ℕ, ◌+◌, ◌≤◌, ◌<◌, ◌≡◌, arith}
use nova_nas.Calendar.Defs.{Time, IsTime, days_in, add_day, add_hour, add_minute, minute_stamp}

pub days_in_bounds : (y m : ℕ) → (28 ≤ days_in y m) × (days_in y m ≤ 31)
unfolding days_in
days_in_bounds y m = ground arith

pub add_day-IsTime : {t : Time} → IsTime t → IsTime (add_day t)
unfolding add_day
add_day-IsTime {t} v =
    ground (arith, days_in_bounds t.year (t.month + 1), days_in_bounds (t.year + 1) 1)

pub add_hour-IsTime : {t : Time} → IsTime t → IsTime (add_hour t)
unfolding add_hour
add_hour-IsTime {t} v =
    ground (arith, days_in_bounds t.year (t.month + 1), days_in_bounds (t.year + 1) 1)

pub add_minute-IsTime : {t : Time} → IsTime t → IsTime (add_minute t)
unfolding add_minute
add_minute-IsTime {t} v =
    ground (arith, days_in_bounds t.year (t.month + 1), days_in_bounds (t.year + 1) 1)

pub add_minute-later :
    {t : Time}
    → IsTime t
    → (minute_stamp t < minute_stamp (add_minute t)) × ((add_minute t).nanos ≡ t.nanos)
unfolding add_minute
add_minute-later {t} v = ground (arith, days_in_bounds t.year t.month)

-- No minute lies between a minute and the next.
pub add_minute-next :
    {t u : Time}
    → IsTime t
    → IsTime u
    → minute_stamp t < minute_stamp u
    → minute_stamp (add_minute t) ≤ minute_stamp u
unfolding add_minute
add_minute-next {t} {u} v w h =
    ground (arith, days_in_bounds t.year t.month, days_in_bounds u.year u.month)
