-- ===== src/Scheduler/Cron/Items.antt =====
-- What an item of a cron field allows, and what `parseField` makes of a list of items.
use nova_nas.Base.{
  nonneg, pos_part_bound, pos_part_above, positive, ℕ, ◌+◌, ◌≤◌, ◌<◌, ◌≡◌, refl, sym, ◌∙◌, inl, inr,
  Bool, true, false, ◌||◌, some, List, [], ◌∷◌, ℤ, pos, pos_part, ltb_ℤ, max_int, Result, ok, err,
  >>=-eq-ok, Result-cases, Text, text_beq, split, Bool-cases, arith,
}
use nova_nas.Scheduler.Cron.{CronField, scan, matches}
use nova_nas.Scheduler.Cron.Parse.{
  FieldError, FieldRange, add_range, range_fuel, parse_step, parse_body, add_checked, parse_item,
  parse_items, parse_field,
}
use nova_nas.Scheduler.Cron.Ranges.{Ascending, in_step, scan-add_range}

-- The range of a well-formed item holds the value, at its step.
abbrev pub bounds_allow : Result FieldError (ℤ × ℤ) → ℕ → ℕ → Bool
bounds_allow (err e) step w = false
bounds_allow (ok (lo, hi)) step w = in_step (pos_part lo) (pos_part hi) step w

abbrev pub step_allows : FieldRange → Result FieldError (Text × ℤ) → ℕ → Bool
step_allows r (err e) w = false
step_allows r (ok (body, step)) w = bounds_allow (parse_body r body) (pos_part step) w

-- Does one item allow the value?
abbrev pub item_allows : FieldRange → Text → ℕ → Bool
item_allows r part w = step_allows r (parse_step part) w

abbrev pub some_item_allows : FieldRange → List Text → ℕ → Bool
some_item_allows r [] w = false
some_item_allows r (part ∷ parts) w = item_allows r part w || some_item_allows r parts w

-- The step of an item is not so large that adding it to a value wraps.
abbrev pub Fits : Result FieldError (Text × ℤ) → Type 0
Fits (err e) = Unit
Fits (ok (body, step)) = pos_part step + 59 ≤ max_int

abbrev pub AllFit : List Text → Type 0
AllFit [] = Unit
AllFit (part ∷ parts) = Fits (parse_step part) × AllFit parts

pub parse_step_pos :
    (part body : Text) (step : ℤ) → parse_step part ≡ ok (body, step) → ltb_ℤ (pos 0) step ≡ true
unfolding parse_step
parse_step_pos part body step h = ground arith

pub parse_body_ordered :
    (r : FieldRange) (body : Text) (lo hi : ℤ)
    → r.min ≤ r.max
    → parse_body r body ≡ ok (lo, hi)
    → ltb_ℤ hi lo ≡ false
unfolding parse_body
parse_body_ordered r body lo hi le h = ground arith

add_checked_inv :
    (r : FieldRange) (lo hi step : ℤ) (set set' : List ℤ)
    → add_checked r lo hi step set ≡ ok set'
    → (ltb_ℤ lo (pos r.min) ≡ false)
      × (ltb_ℤ (pos r.max) hi ≡ false)
      × (add_range range_fuel lo hi step set ≡ some set')
unfolding add_checked
add_checked_inv r lo hi step set set' h = ground arith

scan-add_range_ℤ :
    (lo hi step : ℤ) (a b s : ℕ) (set set' : List ℤ)
    → lo ≡ pos a
    → hi ≡ pos b
    → step ≡ pos s
    → 0 < s
    → s + b ≤ max_int
    → Ascending set
    → add_range range_fuel lo hi step set ≡ some set'
    → Ascending set' × ((w : ℕ) → scan set' (pos w) ≡ (in_step a b s w || scan set (pos w)))
scan-add_range_ℤ lo hi step a b s set set' ea eb es p nw asc h =
    let h' = rw (ea, eb, es) at h in
    (
      (scan-add_range b s 0 p nw range_fuel a set set' asc h').0,
      λ w. (scan-add_range b s w p nw range_fuel a set set' asc h').1,
    )

add_checked-scan :
    (r : FieldRange) (lo hi step : ℤ) (set set' : List ℤ)
    → r.max ≤ 59
    → ltb_ℤ hi lo ≡ false
    → ltb_ℤ (pos 0) step ≡ true
    → pos_part step + 59 ≤ max_int
    → Ascending set
    → add_checked r lo hi step set ≡ ok set'
    → Ascending set'
      × ((w : ℕ)
          → scan set' (pos w)
            ≡ (in_step (pos_part lo) (pos_part hi) (pos_part step) w || scan set (pos w)))
add_checked-scan r lo hi step set set' m o p fits asc h =
    let (above, below, run) = add_checked_inv r lo hi step set set' h in
    let lo_pos = nonneg lo r.min above in
    let hi_pos = nonneg hi (pos_part lo) (rw lo_pos at o) in
    scan-add_range_ℤ lo hi step _ _ _ set set' lo_pos hi_pos (positive step p).0 (positive step p).1
      (omega (arith, pos_part_bound hi r.max below)) asc run

-- The set `out` is ascending and holds what `set` holds and what the items allow, which is all within
-- the range of the field.
pub record Extends (r : FieldRange) (allows : ℕ → Bool) (set out : List ℤ) : Type 0 where
  pub ascending : Ascending out
  pub holds : (w : ℕ) → scan out (pos w) ≡ (allows w || scan set (pos w))
  pub in_range : (w : ℕ) → allows w ≡ true → (r.min ≤ w) × (w ≤ r.max)

module _ (r : FieldRange) (ordered : r.min ≤ r.max) (small : r.max ≤ 59) where
  add_checked-Extends :
      (lo hi step : ℤ) (set out : List ℤ)
      → ltb_ℤ hi lo ≡ false
      → ltb_ℤ (pos 0) step ≡ true
      → pos_part step + 59 ≤ max_int
      → Ascending set
      → add_checked r lo hi step set ≡ ok out
      → Extends r (in_step (pos_part lo) (pos_part hi) (pos_part step)) set out
  add_checked-Extends lo hi step set out o p fits asc h =
      let (above, below, run) = add_checked_inv r lo hi step set out h in
      let (asc', same) = add_checked-scan r lo hi step set out small o p fits asc h in
      let low : r.min ≤ pos_part lo = pos_part_above lo r.min above in
      let high : pos_part hi ≤ r.max = pos_part_bound hi r.max below in
      record { ascending = asc'; holds = same; in_range = λ w q. (ground arith, ground arith) }

  parse_item-Extends :
      (part : Text) (set out : List ℤ)
      → Fits (parse_step part)
      → Ascending set
      → parse_item r part set ≡ ok out
      → Extends r (item_allows r part) set out
  unfolding parse_item
  parse_item-Extends part set out fits asc h = elim (Result-cases (parse_step part)) [
    | inl (e, bad) ↦ absurd (ground arith)
    | inr ((body, step), good) ↦ elim (Result-cases (parse_body r body)) [
      | inl (e, bad') ↦ absurd (ground arith)
      | inr ((lo, hi), good') ↦
          let checked =
            add_checked-Extends lo hi step set out (parse_body_ordered r body lo hi ordered good')
              (parse_step_pos part body step good) (rw good at fits) asc (ground arith) in
          record {
            ascending = checked.ascending;
            holds = λ w. rw (good, good') (checked.holds w);
            in_range = λ w q. checked.in_range w (rw (good, good') at q);
          }
    ]
  ]

  Extends-cons :
      (part : Text) (parts : List Text) (set mid out : List ℤ)
      → Extends r (item_allows r part) set mid
      → Extends r (some_item_allows r parts) mid out
      → Extends r (some_item_allows r (part ∷ parts)) set out
  Extends-cons part parts set mid out a b = record {
    ascending = b.ascending;
    holds = λ w. ground (arith, a.holds w, b.holds w);
    in_range = λ w q. elim (Bool-cases (item_allows r part w)) [
      | inl here ↦ a.in_range w here
      | inr there ↦ b.in_range w (rw there at q)
    ];
  }

  parse_items-Extends :
      (parts : List Text) (set out : List ℤ)
      → AllFit parts
      → Ascending set
      → parse_items r parts set ≡ ok out
      → Extends r (some_item_allows r parts) set out
  unfolding parse_items
  parse_items-Extends [] set out fits asc h =
      let same : set ≡ out = cc in
      record {
        ascending = rw (← same) asc;
        holds = λ w. rw (← same) refl;
        in_range = λ w q. absurd cc;
      }
  parse_items-Extends (part ∷ parts) set out (fit, fits) asc h =
      let (mid, first, later) = >>=-eq-ok (parse_item r part set) (parse_items r parts) h in
      let one = parse_item-Extends part set mid fit asc first in
      Extends-cons part parts set mid out one
        (parse_items-Extends parts mid out fits one.ascending later)

  parse_field-Extends :
      (s : Text) (f : CronField)
      → text_beq s (b'*' ∷ []) ≡ false
      → AllFit (split b',' s)
      → parse_field s r ≡ ok f
      → Extends r (some_item_allows r (split b',' s)) [] f.values × (f.wildcard ≡ false)
  unfolding parse_field
  parse_field-Extends s f star fits h = elim (Bool-cases (text_beq s [])) [
    | inl empty ↦ absurd (ground arith)
    | inr some_text ↦
        let (set, items, done) =
          >>=-eq-ok (parse_items r (split b',' s) [])
            (λ set. ok (record { wildcard = false; values = set }))
            (rw (parse_field, some_text, star) at h) in
        let same : record { wildcard = false; values = set } ≡ f = cc in
        rw (← same) (parse_items-Extends (split b',' s) [] set fits tt items, refl)
  ]

  -- A field other than `*` matches exactly the values that one of its items allows, provided that no step
  -- is so large that the addition of it wraps.
  pub parse_field-matches :
      (s : Text) (f : CronField)
      → text_beq s (b'*' ∷ []) ≡ false
      → AllFit (split b',' s)
      → parse_field s r ≡ ok f
      → (w : ℕ) → matches f w ≡ some_item_allows r (split b',' s) w
  unfolding matches scan
  parse_field-matches s f star fits h w =
      let (all, plain) = parse_field-Extends s f star fits h in ground (arith, all.holds w, plain)

  -- A value that an accepted field other than `*` matches lies in the range of the field, provided that no step is so
  -- large that the addition of it wraps.
  pub parse_field_in_range :
      (s : Text) (f : CronField)
      → text_beq s (b'*' ∷ []) ≡ false
      → AllFit (split b',' s)
      → parse_field s r ≡ ok f
      → (w : ℕ) → matches f w ≡ true
      → (r.min ≤ w) × (w ≤ r.max)
  parse_field_in_range s f star fits h w m =
      let (all, plain) = parse_field-Extends s f star fits h in
      all.in_range w (sym (parse_field-matches s f star fits h w) ∙ m)
