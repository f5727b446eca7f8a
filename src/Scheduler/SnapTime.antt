-- ===== src/Scheduler/SnapTime.antt =====
-- internal/host/scheduler/retention.go: the time in a snapshot's short name, `<prefix>-<YYYY-MM-DD-HHMM>`.
-- The fixed layout of Go's `time` package is written out: `Format` pads the year to four digits, and
-- `ParseInLocation` takes exactly the digits of the layout and checks the date. The
-- location is UTC, where no time of the day is left out or moved.
pub mod Digits
pub mod RoundTrip
use nova_nas.Base.{
  ℕ, zero, suc, ◌+◌, ◌-◌, ◌*◌, ◌/◌, ◌%◌, Bool, true, false, not, ◌&&◌, ◌||◌, Option, none, some,
  List, [], ◌∷◌, ◌++◌, ltb, leb, ◌==◌, if◌then◌else◌, Text,
}
use nova_nas.Base.Options.{◌>>=◌}
use nova_nas.Calendar.{Time, days_in}

abbrev pub digit : ℕ → ℕ
digit n = b'0' + n % 10

-- The digits of `n` before `acc`; `n` of fuel is enough.
pub decimal : ℕ → ℕ → Text → Text
decimal zero n acc = digit n ∷ acc
decimal (suc fuel) n acc =
    let longer = decimal fuel (n / 10) (digit n ∷ acc) in if ltb n 10 then digit n ∷ acc else longer

abbrev pub two : ℕ → Text
two n = digit (n / 10) ∷ digit n ∷ []

abbrev pub four : ℕ → Text
four n = two (n / 100) ++ two n

pub format_year : ℕ → Text
unfolding decimal
format_year y = if ltb y 10000 then four y else decimal y y []

unfoldable pub format_time : Time → Text
unfolding format_year
format_time t =
    format_year t.year
    ++ b'-' ∷ two t.month
    ++ b'-' ∷ two t.day
    ++ b'-' ∷ two t.hour
    ++ two t.minute

unfoldable pub format_snap_time : Text → Time → Text
format_snap_time prefix t = prefix ++ b'-' ∷ format_time t

abbrev pub is_digit : ℕ → Bool
is_digit c = leb b'0' c && leb c b'9'

-- Two digits, and what follows them.
unfoldable pub take_two : Text → Option (ℕ × Text)
take_two (a ∷ b ∷ s) =
    if is_digit a && is_digit b then some (10 * (a - b'0') + (b - b'0'), s) else none
take_two _ = none

unfoldable pub take_four : Text → Option (ℕ × Text)
take_four s = do (high, s1) ← take_two s; (low, s2) ← take_two s1; some (100 * high + low, s2)

unfoldable pub skip_dash : Text → Option Text
skip_dash [] = none
skip_dash (c ∷ s) = if c == b'-' then some s else none

-- The whole text must be used up, and the fields must be those of a real date and time.
unfoldable pub check_time : ℕ → ℕ → ℕ → ℕ → ℕ → Text → Option Time
check_time y mo d h mi rest =
    if leb 1 mo && leb mo 12 && ltb h 24 && ltb mi 60 && leb 1 d && leb d (days_in y mo)
    then (elim rest as (λ _. Option Time) [
      | [] ↦ some (record { year = y; month = mo; day = d; hour = h; minute = mi; nanos = 0 })
      | _ ∷ _ ↦ none
    ])
    else none

unfoldable pub parse_time : Text → Option Time
parse_time s = do
  (y, s1) ← take_four s
  s2 ← skip_dash s1
  (mo, s3) ← take_two s2
  s4 ← skip_dash s3
  (d, s5) ← take_two s4
  s6 ← skip_dash s5
  (h, s7) ← take_two s6
  (mi, s8) ← take_two s7
  check_time y mo d h mi s8

-- `strings.HasPrefix` and the text after the prefix.
unfoldable pub strip_prefix : Text → Text → Option Text
strip_prefix [] s = some s
strip_prefix (p ∷ ps) [] = none
strip_prefix (p ∷ ps) (c ∷ s) = let rest = strip_prefix ps s in if p == c then rest else none

unfoldable pub parsed_snap_time : Text → Text → Option Time
parsed_snap_time short prefix = elim (strip_prefix (prefix ++ b'-' ∷ []) short) [
  | none ↦ none
  | some suffix ↦ parse_time suffix
]
