-- ===== src/Calendar/Defs.antt =====
-- Wall-clock fields, the length of a month, the day of the week, and the steps in time.
use nova_nas.Base.{
  ℕ, ◌+◌, ◌-◌, ◌*◌, ◌/◌, ◌%◌, ◌≤◌, ◌<◌, Bool, not, ◌&&◌, ◌||◌, ltb, leb, ◌==◌, if◌then◌else◌,
}

pub record Time : Type 0 where
  pub year : ℕ
  pub month : ℕ  -- 1 to 12
  pub day : ℕ  -- 1 to 31
  pub hour : ℕ
  pub minute : ℕ
  pub nanos : ℕ  -- nanoseconds since the minute began

pub is_leap : ℕ → Bool
is_leap y = y % 4 == 0 && (not (y % 100 == 0) || y % 400 == 0)

unfoldable pub days_in : ℕ → ℕ → ℕ
unfolding is_leap
days_in y m =
    if m == 2
    then (if is_leap y then 29 else 28)
    else if m == 4 || m == 6 || m == 9 || m == 11
    then 30
    else 31

-- The fields are those of a real date and time.
pub record IsTime (t : Time) : Type 0 where
  pub month_pos : 1 ≤ t.month
  pub month_le : t.month ≤ 12
  pub day_pos : 1 ≤ t.day
  pub day_le : t.day ≤ days_in t.year t.month
  pub hour_lt : t.hour < 24
  pub minute_lt : t.minute < 60
  pub nanos_lt : t.nanos < 60_000_000_000

-- Days from 31 December of the year before 1 to the last day before month `m` of year `y`.
days_before : ℕ → ℕ → ℕ
unfolding is_leap
days_before y m =
    let c = y - 1 in
    let leap = if is_leap y && ltb 2 m then 1 else 0 in
    let months =
      if m == 1
      then 0
      else if m == 2
      then 31
      else if m == 3
      then 59
      else if m == 4
      then 90
      else if m == 5
      then 120
      else if m == 6
      then 151
      else if m == 7
      then 181
      else if m == 8
      then 212
      else if m == 9
      then 243
      else if m == 10
      then 273
      else if m == 11
      then 304
      else 334 in
    365 * c + c / 4 - c / 100 + c / 400 + months + leap

-- 1 for 1 January of year 1.
unfoldable pub day_number : ℕ → ℕ → ℕ → ℕ
unfolding days_before
day_number y m d = days_before y m + d

-- 0 is Sunday. 1 January of year 1 is a Monday.
unfoldable pub weekday : Time → ℕ
unfolding day_number
weekday t = day_number t.year t.month t.day % 7

-- The year and week of `t.ISOWeek()`: those of the Thursday of its week.
unfoldable pub iso_week : Time → ℕ × ℕ
unfolding day_number
iso_week t =
    let n = day_number t.year t.month t.day in
    let thursday = n + 3 - (n + 6) % 7 in
    let y =
      if ltb thursday (day_number t.year 1 1)
      then t.year - 1
      else if leb (day_number (t.year + 1) 1 1) thursday
      then t.year + 1
      else t.year in
    (y, (thursday - day_number y 1 1) / 7 + 1)

-- `t.Truncate(time.Minute)`
unfoldable pub truncate : Time → Time
truncate t = record t { nanos = 0 }

-- `t.Add(24 * time.Hour)`
unfoldable pub add_day : Time → Time
add_day t =
    if ltb t.day (days_in t.year t.month)
    then record t { day = t.day + 1 }
    else if ltb t.month 12
    then record t { month = t.month + 1; day = 1 }
    else record t { year = t.year + 1; month = 1; day = 1 }

-- `t.Add(time.Hour)`
unfoldable pub add_hour : Time → Time
unfolding add_day
add_hour t =
    if ltb t.hour 23 then record t { hour = t.hour + 1 } else add_day (record t { hour = 0 })

-- `t.Add(time.Minute)`
unfoldable pub add_minute : Time → Time
unfolding add_hour
add_minute t =
    if ltb t.minute 59
    then record t { minute = t.minute + 1 }
    else add_hour (record t { minute = 0 })

-- A number that grows with the fields, the first of them the most significant.
abbrev pub minute_stamp : Time → ℕ
minute_stamp t = (((t.year * 13 + t.month) * 32 + t.day) * 24 + t.hour) * 60 + t.minute

abbrev pub stamp : Time → ℕ
stamp t = minute_stamp t * 60_000_000_000 + t.nanos

-- `a.After(b)`
abbrev pub after : Time → Time → Bool
after a b = ltb (stamp b) (stamp a)

-- What package `time` answers for the times `I` of one location: the fields of a time there (`In(loc)`), the
-- time that `time.Date` gives for fields, `Truncate(time.Minute)`, `Add` of a minute, an hour and 24 hours, and
-- `After`.
pub record Clock (I : Type 0) : Type 0 where
  pub wall : I → Time
  pub date : Time → I
  pub to_minute : I → I
  pub plus_minute : I → I
  pub plus_hour : I → I
  pub plus_day : I → I
  pub is_after : I → I → Bool

-- A location with a fixed offset, where the fields of a time stand for it.
abbrev pub fixed_clock : Clock Time
fixed_clock = record {
  wall = λ t. t;
  date = λ t. t;
  to_minute = truncate;
  plus_minute = add_minute;
  plus_hour = add_hour;
  plus_day = add_day;
  is_after = after;
}
