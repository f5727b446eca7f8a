-- ===== src/Scheduler/Cron/Total.antt =====
-- `parseField` ends on every text: the model never runs out of fuel.
use nova_nas.Base.{
  nonneg, pos_part_bound, pos_part_above, positive, ℕ, ◌≤◌, ◌<◌, ◌≡◌, ◌≢◌, inl, inr, true, false,
  some, List, [], ◌∷◌, ℤ, pos, pos_part, ltb_ℤ, max_int, ok, err, Result-cases, Text, split, cut,
  atoi, Bool-cases, Option-cases, arith, atoi_bound,
}
use nova_nas.Scheduler.Cron.Parse.{
  no_fuel, FieldRange, add_range, range_fuel, parse_step, parse_body, add_checked, parse_item,
  parse_items, parse_field,
}
use nova_nas.Scheduler.Cron.Items.{parse_step_pos, parse_body_ordered}
use nova_nas.Scheduler.Cron.RangeFuel.{add_range_total}

step_bound :
    (part body : Text) (step : ℤ) → parse_step part ≡ ok (body, step) → pos_part step ≤ max_int
unfolding parse_step
step_bound part body step h = elim (Option-cases (cut b'/' part)) [
  | inl e ↦ ground arith
  | inr ((b, s), e) ↦ elim (Option-cases (atoi s)) [
    | inl e' ↦ absurd (ground arith)
    | inr (n, e') ↦ ground (arith, atoi_bound s n e')
  ]
]

-- No error of the parts is the one for missing fuel.
parse_step_ne : (part : Text) → parse_step part ≢ err no_fuel
unfolding parse_step
parse_step_ne part h = ground arith

parse_body_ne : (r : FieldRange) (body : Text) → parse_body r body ≢ err no_fuel
unfolding parse_body
parse_body_ne r body h = ground arith

-- On integers: a loop that begins at or above 0 and ends below 60.
add_range_total_ℤ :
    (lo hi step : ℤ) (a b s : ℕ) (set : List ℤ)
    → lo ≡ pos a
    → hi ≡ pos b
    → step ≡ pos s
    → a ≤ 59
    → b ≤ 59
    → 0 < s
    → s ≤ max_int
    → (out : List ℤ) × (add_range range_fuel lo hi step set ≡ some out)
add_range_total_ℤ lo hi step a b s set ea eb es la lb p i =
    rw (ea, eb, es) (add_range_total b s lb p i a set la)

module _ (r : FieldRange) (ordered : r.min ≤ r.max) (small : r.max ≤ 59) where
  add_checked_ne :
      (lo hi step : ℤ) (set : List ℤ)
      → ltb_ℤ hi lo ≡ false
      → ltb_ℤ (pos 0) step ≡ true
      → pos_part step ≤ max_int
      → add_checked r lo hi step set ≢ err no_fuel
  unfolding add_checked
  add_checked_ne lo hi step set o p bound h = elim (Bool-cases (ltb_ℤ lo (pos r.min))) [
    | inl low ↦ ground arith
    | inr above ↦ elim (Bool-cases (ltb_ℤ (pos r.max) hi)) [
      | inl high ↦ ground arith
      | inr below ↦
          let lo_pos = nonneg lo r.min above in
          let hi_pos = nonneg hi (pos_part lo) (rw lo_pos at o) in
          let top = pos_part_bound hi r.max below in
          let low_le : pos_part lo ≤ pos_part hi =
            pos_part_above hi (pos_part lo) (rw lo_pos at o) in
          let (out, e) =
            add_range_total_ℤ lo hi step _ _ _ set lo_pos hi_pos (positive step p).0 (omega arith)
              (omega arith) (positive step p).1 bound in
          ground arith
    ]
  ]

  parse_item_ne : (part : Text) (set : List ℤ) → parse_item r part set ≢ err no_fuel
  unfolding parse_item
  parse_item_ne part set h = elim (Result-cases (parse_step part)) [
    | inl (e, bad) ↦ ground (arith, parse_step_ne part)
    | inr ((body, step), good) ↦ elim (Result-cases (parse_body r body)) [
      | inl (e, bad') ↦ ground (arith, parse_body_ne r body)
      | inr ((lo, hi), good') ↦ ground (
        arith,
        add_checked_ne lo hi step set (parse_body_ordered r body lo hi ordered good')
            (parse_step_pos part body step good) (step_bound part body step good),
      )
    ]
  ]

  parse_items_ne : (parts : List Text) (set : List ℤ) → parse_items r parts set ≢ err no_fuel
  unfolding parse_items
  parse_items_ne [] set h = cc
  parse_items_ne (part ∷ parts) set h = elim (Result-cases (parse_item r part set)) [
    | inl (e, bad) ↦ ground (arith, parse_item_ne part set)
    | inr (mid, good) ↦ parse_items_ne parts mid (ground arith)
  ]

  -- Parsing a field never runs out of the fuel of the model, whatever the text and its steps are: the
  -- source's loop ends, also where its addition wraps.
  pub parse_field_total : (s : Text) → parse_field s r ≢ err no_fuel
  unfolding parse_field
  parse_field_total s h = elim (Result-cases (parse_items r (split b',' s) [])) [
    | inl (e, bad) ↦ ground (arith, parse_items_ne (split b',' s) [])
    | inr (set, good) ↦ ground arith
  ]
