-- ===== src/Scheduler/Cron/Parse.antt =====
-- `ParseCron` and `parseField` of internal/host/scheduler/cron.go, over text as code points. The set of
-- values, a Go map that is sorted at the end, is kept as the ascending list of its elements.
use nova_nas.Base.{
  ℕ, zero, suc, true, false, ◌||◌, Option, none, some, List, [], ◌∷◌, if◌then◌else◌, ℤ, pos, ltb_ℤ,
  eqb_ℤ, add_int, Result, ok, err, ◌>>=◌, map_err, Text, text_beq, split, fields, trim_space, cut,
  atoi, length,
}
use nova_nas.Scheduler.Cron.{CronField, CronExpr}

pub data FieldError : Type 0 where
  empty_field empty_item bad_step bad_range_start bad_range_end reversed_range bad_value :
      FieldError
  out_of_range : FieldError
  no_fuel : FieldError  -- in the model only

-- The field that an error is about, or the wrong number of fields.
pub data CronError : Type 0 where
  field_count : ℕ → CronError
  bad_minute bad_hour bad_dom bad_mon bad_dow : FieldError → CronError

pub record FieldRange : Type 0 where
  pub min : ℕ
  pub max : ℕ

abbrev pub rng_minute : FieldRange
rng_minute = record { min = 0; max = 59 }

abbrev pub rng_hour : FieldRange
rng_hour = record { min = 0; max = 23 }

abbrev pub rng_dom : FieldRange
rng_dom = record { min = 1; max = 31 }

abbrev pub rng_mon : FieldRange
rng_mon = record { min = 1; max = 12 }

abbrev pub rng_dow : FieldRange
rng_dow = record { min = 0; max = 6 }

-- `set[v] = struct{}{}`
unfoldable pub add_value : ℤ → List ℤ → List ℤ
add_value v [] = v ∷ []
add_value v (x ∷ xs) =
    let rest = add_value v xs in
    if eqb_ℤ x v then x ∷ xs else if ltb_ℤ v x then v ∷ x ∷ xs else x ∷ rest

-- `for v := lo; v <= hi; v += step`, where the addition wraps.
unfoldable pub add_range : ℕ → ℤ → ℤ → ℤ → List ℤ → Option (List ℤ)
unfolding add_value
add_range zero v hi step set = none
add_range (suc fuel) v hi step set =
    let rest = add_range fuel (add_int v step) hi step (add_value v set) in
    if ltb_ℤ hi v then some set else rest

-- More rounds than the loop can make within the ranges above.
abbrev pub range_fuel : ℕ
range_fuel = 200

-- The step suffix: the part before the first `/` and the step behind it.
unfoldable pub parse_step : Text → Result FieldError (Text × ℤ)
parse_step part = elim (cut b'/' part) [
  | none ↦ ok (part, pos 1)
  | some (body, step_str) ↦ elim (atoi step_str) [
    | none ↦ err bad_step
    | some n ↦ if ltb_ℤ (pos 0) n then ok (body, n) else err bad_step
  ]
]

-- `A-B`
unfoldable pub parse_bounds : Text → Text → Result FieldError (ℤ × ℤ)
parse_bounds start end = elim (atoi start) [
  | none ↦ err bad_range_start
  | some a ↦ elim (atoi end) [
    | none ↦ err bad_range_end
    | some b ↦ if ltb_ℤ b a then err reversed_range else ok (a, b)
  ]
]

-- The body: `*`, a range or a value.
unfoldable pub parse_body : FieldRange → Text → Result FieldError (ℤ × ℤ)
unfolding parse_bounds
parse_body r body =
    let single = elim (atoi body) as (λ _. Result FieldError (ℤ × ℤ)) [
      | none ↦ err bad_value
      | some n ↦ ok (n, n)
    ] in
    if text_beq body (b'*' ∷ [])
    then ok (pos r.min, pos r.max)
    else elim (cut b'-' body) [ some (start, end) ↦ parse_bounds start end | none ↦ single ]

-- The range check and the loop.
unfoldable pub add_checked : FieldRange → ℤ → ℤ → ℤ → List ℤ → Result FieldError (List ℤ)
add_checked r lo hi step set =
    if ltb_ℤ lo (pos r.min) || ltb_ℤ (pos r.max) hi
    then err out_of_range
    else elim (add_range range_fuel lo hi step set) [ none ↦ err no_fuel | some set' ↦ ok set' ]

-- One item of the list, added to the set.
unfoldable pub parse_item : FieldRange → Text → List ℤ → Result FieldError (List ℤ)
parse_item r part set = if text_beq part [] then err empty_item else do
  (body, step) ← parse_step part
  (lo, hi) ← parse_body r body
  add_checked r lo hi step set

unfoldable pub parse_items : FieldRange → List Text → List ℤ → Result FieldError (List ℤ)
parse_items r [] set = ok set
parse_items r (part ∷ parts) set = do set' ← parse_item r part set; parse_items r parts set'

unfoldable pub parse_field : Text → FieldRange → Result FieldError CronField
parse_field s r =
    if text_beq s []
    then err empty_field
    else if text_beq s (b'*' ∷ [])
    then ok (record { wildcard = true; values = [] })
    else do set ← parse_items r (split b',' s) []; ok (record { wildcard = false; values = set })

-- The five fields, once there are five.
unfoldable pub parse_parts : List Text → Result CronError CronExpr
unfolding parse_field
parse_parts (minute ∷ hour ∷ dom ∷ mon ∷ dow ∷ []) = do
  mi ← map_err bad_minute (parse_field minute rng_minute)
  hr ← map_err bad_hour (parse_field hour rng_hour)
  d ← map_err bad_dom (parse_field dom rng_dom)
  m ← map_err bad_mon (parse_field mon rng_mon)
  w ← map_err bad_dow (parse_field dow rng_dow)
  ok (record { minute = mi; hour = hr; dom = d; mon = m; dow = w })
parse_parts parts = err (field_count (length parts))

unfoldable pub parse_cron : Text → Result CronError CronExpr
unfolding parse_parts
parse_cron expr = parse_parts (fields (trim_space expr))
