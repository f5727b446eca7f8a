-- ===== src/Scheduler/SnapTime/RoundTrip.antt =====
-- Writing a snapshot's short name and reading its time back.
use nova_nas.Base.{
  ℕ, ◌<◌, ◌≡◌, refl, sym, ap, ◌∙◌, inl, inr, some, [], ◌∷◌, ◌++◌, Text, arith, Option-cases,
}
use nova_nas.Base.Options.{>>=-eq-some}
use nova_nas.Calendar.{Time, IsTime, days_in}
use nova_nas.Scheduler.SnapTime.{
  two, four, format_time, format_snap_time, take_two, take_four, skip_dash, check_time, parse_time,
  strip_prefix, parsed_snap_time, format_year,
}
use nova_nas.Scheduler.SnapTime.Digits.{
  take_two_written, take_four_written, take_two_read, take_four_read, skip_dash_read,
  strip_prefix_written, strip_prefix_read,
}

check_time_read :
    (y mo d h mi : ℕ) (rest : Text) (t : Time)
    → check_time y mo d h mi rest ≡ some t
    → (rest ≡ [])
      × IsTime t
      × (t ≡ record { year = y; month = mo; day = d; hour = h; minute = mi; nanos = 0 })
unfolding check_time
check_time_read y mo d h mi [] t e = ground arith
check_time_read y mo d h mi (c ∷ rest) t e = absurd (ground (arith, e))

check_time_written :
    (t : Time)
    → IsTime t
    → check_time t.year t.month t.day t.hour t.minute [] ≡ some (record t { nanos = 0 })
unfolding check_time
check_time_written t v = ground (arith, v)

-- The readings that `parse_time` makes of a text, one after the other.
record Fields (s : Text) (y mo d h mi : ℕ) (rest : Text) : Type 0 where
  s1 : Text
  s2 : Text
  s3 : Text
  s4 : Text
  s5 : Text
  s6 : Text
  s7 : Text
  year_read : take_four s ≡ some (y, s1)
  dash1 : skip_dash s1 ≡ some s2
  month_read : take_two s2 ≡ some (mo, s3)
  dash2 : skip_dash s3 ≡ some s4
  day_read : take_two s4 ≡ some (d, s5)
  dash3 : skip_dash s5 ≡ some s6
  hour_read : take_two s6 ≡ some (h, s7)
  minute_read : take_two s7 ≡ some (mi, rest)

parse_time-Fields :
    (s rest : Text) (y mo d h mi : ℕ)
    → Fields s y mo d h mi rest
    → parse_time s ≡ check_time y mo d h mi rest
unfolding parse_time
parse_time-Fields s rest y mo d h mi f = rw (
  parse_time, f.year_read, f.dash1, f.month_read, f.dash2, f.day_read, f.dash3, f.hour_read,
  f.minute_read,
)

Fields-text :
    (s rest : Text) (y mo d h mi : ℕ)
    → Fields s y mo d h mi rest
    → (s ≡ four y ++ b'-' ∷ two mo ++ b'-' ∷ two d ++ b'-' ∷ two h ++ two mi ++ rest) × (y < 10000)
Fields-text s rest y mo d h mi f = ground (
  arith,
  take_four_read s f.s1 y f.year_read,
  skip_dash_read f.s1 f.s2 f.dash1,
  take_two_read f.s2 f.s3 mo f.month_read,
  skip_dash_read f.s3 f.s4 f.dash2,
  take_two_read f.s4 f.s5 d f.day_read,
  skip_dash_read f.s5 f.s6 f.dash3,
  take_two_read f.s6 f.s7 h f.hour_read,
  take_two_read f.s7 rest mi f.minute_read,
)

written-Fields :
    (t : Time)
    → IsTime t
    → t.year < 10000
    → Fields
        (four t.year ++ b'-' ∷ two t.month ++ b'-' ∷ two t.day ++ b'-' ∷ two t.hour ++ two t.minute)
        t.year
        t.month
        t.day
        t.hour
        t.minute
        []
unfolding skip_dash days_in
written-Fields t v h = record {
  s1 = b'-' ∷ two t.month ++ b'-' ∷ two t.day ++ b'-' ∷ two t.hour ++ two t.minute;
  s2 = two t.month ++ b'-' ∷ two t.day ++ b'-' ∷ two t.hour ++ two t.minute;
  s3 = b'-' ∷ two t.day ++ b'-' ∷ two t.hour ++ two t.minute;
  s4 = two t.day ++ b'-' ∷ two t.hour ++ two t.minute;
  s5 = b'-' ∷ two t.hour ++ two t.minute;
  s6 = two t.hour ++ two t.minute;
  s7 = two t.minute;
  year_read = take_four_written t.year _ h;
  dash1 = refl;
  month_read = take_two_written t.month _ (omega (arith, v.month_le));
  dash2 = refl;
  day_read = take_two_written t.day _ (ground (arith, v.day_le));
  dash3 = refl;
  hour_read = take_two_written t.hour _ (omega (arith, v.hour_lt));
  minute_read = take_two_written t.minute [] (omega (arith, v.minute_lt));
}

read-Fields :
    (s : Text) (t : Time)
    → parse_time s ≡ some t
    → (y : ℕ) × (mo : ℕ) × (d : ℕ) × (h : ℕ) × (mi : ℕ) × (rest : Text) × Fields s y mo d h mi rest
      × (check_time y mo d h mi rest ≡ some t)
unfolding parse_time
read-Fields s t e =
    let ((y, s1), e1, h1) = >>=-eq-some (take_four s) _ e in
    let (s2, e2, h2) = >>=-eq-some (skip_dash s1) _ h1 in
    let ((mo, s3), e3, h3) = >>=-eq-some (take_two s2) _ h2 in
    let (s4, e4, h4) = >>=-eq-some (skip_dash s3) _ h3 in
    let ((d, s5), e5, h5) = >>=-eq-some (take_two s4) _ h4 in
    let (s6, e6, h6) = >>=-eq-some (skip_dash s5) _ h5 in
    let ((h, s7), e7, h7) = >>=-eq-some (take_two s6) _ h6 in
    let ((mi, s8), e8, h8) = >>=-eq-some (take_two s7) _ h7 in
    (
      y,
      mo,
      d,
      h,
      mi,
      s8,
      record {
        s1 = s1;
        s2 = s2;
        s3 = s3;
        s4 = s4;
        s5 = s5;
        s6 = s6;
        s7 = s7;
        year_read = e1;
        dash1 = e2;
        month_read = e3;
        dash2 = e4;
        day_read = e5;
        dash3 = e6;
        hour_read = e7;
        minute_read = e8;
      },
      h8,
    )

format_time_short :
    (t : Time)
    → t.year < 10000
    → format_time t
      ≡ four t.year ++ b'-' ∷ two t.month ++ b'-' ∷ two t.day ++ b'-' ∷ two t.hour ++ two t.minute
unfolding format_time format_year
format_time_short t h = ground arith

-- For a real date and time before the year 10000, `ParsedSnapTime` gets back, from the short name that
-- `FormatSnapTime` writes with the same prefix, the time without its seconds.
pub parsed_snap_time-format_snap_time :
    (prefix : Text) (t : Time)
    → IsTime t
    → t.year < 10000
    → parsed_snap_time (format_snap_time prefix t) prefix ≡ some (record t { nanos = 0 })
unfolding parsed_snap_time format_snap_time
parsed_snap_time-format_snap_time prefix t v h =
    let f = written-Fields t v h in
    ground (
      arith,
      strip_prefix_written prefix (format_time t) b'-',
      format_time_short t h,
      parse_time-Fields _ [] t.year t.month t.day t.hour t.minute f,
      check_time_written t v,
    )

parse_time_sound :
    (s : Text) (t : Time)
    → parse_time s ≡ some t
    → (s ≡ format_time t) × IsTime t × (t.year < 10000) × (t.nanos ≡ 0)
parse_time_sound s t e =
    let (y, mo, d, h, mi, rest, f, c) = read-Fields s t e in
    let (done, v, same) = check_time_read y mo d h mi rest t c in
    let (text, bound) = Fields-text s rest y mo d h mi f in
    let year : (t.year ≡ y) = ap (λ (u : Time). u.year) same in
    (
      text
          ∙ ap (λ r. four y ++ b'-' ∷ two mo ++ b'-' ∷ two d ++ b'-' ∷ two h ++ two mi ++ r) done
          ∙ sym (
              ap
                (λ (u : Time).
                  four u.year
                  ++ b'-' ∷ two u.month
                  ++ b'-' ∷ two u.day
                  ++ b'-' ∷ two u.hour
                  ++ two u.minute)
                same)
          ∙ sym (format_time_short t (rw year bound)),
      v,
      rw year bound,
      ap (λ (u : Time). u.nanos) same,
    )

-- A short name in which `ParsedSnapTime` finds a time is the one that `FormatSnapTime` writes for that
-- time and the prefix, so no two names of a prefix have the same time; and the time is a real one,
-- before the year 10000 and without seconds.
pub parsed_snap_time_sound :
    (short prefix : Text) (t : Time)
    → parsed_snap_time short prefix ≡ some t
    → (short ≡ format_snap_time prefix t) × IsTime t × (t.year < 10000) × (t.nanos ≡ 0)
unfolding parsed_snap_time format_snap_time
parsed_snap_time_sound short prefix t e =
    elim (Option-cases (strip_prefix (prefix ++ b'-' ∷ []) short)) [
      | inl missing ↦ absurd (ground (arith, missing, e))
      | inr (suffix, found) ↦
          let (text, v, bound, zero_nanos) =
            parse_time_sound suffix t (rw (parsed_snap_time, found) at e) in
          (
            strip_prefix_read prefix short suffix b'-' found ∙ ap (λ r. prefix ++ b'-' ∷ r) text,
            v,
            bound,
            zero_nanos,
          )
    ]
