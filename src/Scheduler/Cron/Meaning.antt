-- ===== src/Scheduler/Cron/Meaning.antt =====
-- What the items of a cron field mean, by the form of their text (internal/host/scheduler/cron.go).
use nova_nas.Base.{
  ℕ, ◌+◌, ◌-◌, ◌*◌, ◌/◌, ◌%◌, ◌≤◌, ◌<◌, ◌≡◌, ◌⊎◌, ◌↔◌, refl, sym, ap, ◌∙◌, inl, inr, true, false,
  none, some, List, [], ◌∷◌, ◌++◌, ◌==◌, ==_iff, ℤ, pos, pos_part, ltb_ℤ, ok, Result-cases,
  Option-cases, Bool-cases, Text, text_beq, split, cut, atoi, contains, nat_eq, arith, positive,
}
use native.Mathlib.Nat.{mod-eq-sub-mul-div, mul-div-le, mul-mod_left, mul_comm}
use nova_nas.Scheduler.Cron.{CronField, matches}
use nova_nas.Scheduler.Cron.Parse.{FieldRange, parse_step, parse_bounds, parse_body, parse_field}
use nova_nas.Scheduler.Cron.Ranges.{in_step}
use nova_nas.Scheduler.Cron.Items.{
  item_allows, some_item_allows, AllFit, parse_field-matches, parse_step_pos,
}

-- `s` is `a` and `b` with its first `sep` between them.
abbrev pub Cuts : ℕ → Text → Text → Text → Type 0
Cuts sep s a b = (s ≡ a ++ (sep ∷ b)) × (contains a sep ≡ false)

-- The item is a body with step 1, or a body, a slash and its step.
abbrev pub HasStep : Text → Text → ℤ → Type 0
HasStep part body step =
    ((contains part b'/' ≡ false) × (body ≡ part) × (step ≡ pos 1))
    ⊎ ((st : Text) × Cuts b'/' part body st × (atoi st ≡ some step) × (ltb_ℤ (pos 0) step ≡ true))

-- The body is a star, for the whole range of the field, two numbers with a dash between them, or one number.
abbrev pub HasBounds : FieldRange → Text → ℤ → ℤ → Type 0
HasBounds r body lo hi =
    ((text_beq body (b'*' ∷ []) ≡ true) × (lo ≡ pos r.min) × (hi ≡ pos r.max))
    ⊎ ((text_beq body (b'*' ∷ []) ≡ false)
        × (((a : Text) × (b : Text) × Cuts b'-' body a b
              × (atoi a ≡ some lo)
              × (atoi b ≡ some hi)
              × (ltb_ℤ hi lo ≡ false))
            ⊎ ((contains body b'-' ≡ false) × (atoi body ≡ some lo) × (hi ≡ lo))))

-- The item has the value: it is so many steps above the start, and not above the end. No start, end or step that is
-- accepted is negative.
abbrev pub Means : FieldRange → Text → ℕ → Type 0
Means r part w =
    (body : Text) × (step : ℤ) × (lo : ℤ) × (hi : ℤ) × HasStep part body step
    × HasBounds r body lo hi
    × ((k : ℕ) × (w ≡ pos_part lo + k * pos_part step) × (w ≤ pos_part hi))

abbrev pub SomeMeans : FieldRange → List Text → ℕ → Type 0
SomeMeans r [] w = ⊥
SomeMeans r (part ∷ parts) w = Means r part w ⊎ SomeMeans r parts w

cut_found : (sep : ℕ) (s a b : Text) → cut sep s ≡ some (a, b) → Cuts sep s a b
unfolding cut contains
cut_found sep [] a b h = absurd cc
cut_found sep (c ∷ cs) a b h = elim (Bool-cases (c == sep)) [
  | inl here ↦ elim (Option-cases (cut sep cs)) [
    | inl e ↦ ground (arith, here, e, h, ==_iff c sep)
    | inr ((a', b'), e) ↦ ground (arith, here, e, h, ==_iff c sep)
  ]
  | inr there ↦ elim (Option-cases (cut sep cs)) [
    | inl e ↦ absurd (ground (arith, there, e, h))
    | inr ((a', b'), e) ↦
        let (split_at, clean) = cut_found sep cs a' b' e in
        ground (arith, there, e, h, split_at, clean)
  ]
]

cut_absent : (sep : ℕ) (s : Text) → cut sep s ≡ none → contains s sep ≡ false
unfolding cut contains
cut_absent sep [] h = refl
cut_absent sep (c ∷ cs) h = elim (Option-cases (cut sep cs)) [
  | inl e ↦ ground (arith, e, h, cut_absent sep cs e)
  | inr ((a', b'), e) ↦ absurd (ground (arith, e, h))
]

cut_of_clean : (sep : ℕ) (s : Text) → contains s sep ≡ false → cut sep s ≡ none
unfolding cut contains
cut_of_clean sep [] h = refl
cut_of_clean sep (c ∷ cs) h = ground (arith, h, cut_of_clean sep cs)

cut_at : (sep : ℕ) (a b : Text) → contains a sep ≡ false → cut sep (a ++ (sep ∷ b)) ≡ some (a, b)
unfolding cut contains
cut_at sep [] b h = elim (Option-cases (cut sep b)) [
  | inl e ↦ ground (arith, e)
  | inr (p, e) ↦ ground (arith, e)
]
cut_at sep (c ∷ a) b h = ground (arith, h, cut_at sep a b)

Cuts-cut : (sep : ℕ) (s a b : Text) → Cuts sep s a b → cut sep s ≡ some (a, b)
Cuts-cut sep s a b (e, clean) = ap (cut sep) e ∙ cut_at sep a b clean

parse_step_lem :
    (part body : Text) (step : ℤ) → (parse_step part ≡ ok (body, step)) ↔ HasStep part body step
unfolding parse_step
parse_step_lem part body step = (
  λ h. elim (Option-cases (cut b'/' part)) [
    | inl e ↦ inl (cut_absent b'/' part e, ground (arith, e, h), ground (arith, e, h))
    | inr ((a, st), e) ↦ elim (Option-cases (atoi st)) [
      | inl bad ↦ absurd (ground (arith, e, bad, h))
      | inr (n, good) ↦
          let same : (a ≡ body) = ground (arith, e, good, h) in
          let same_step : (n ≡ step) = ground (arith, e, good, h) in
          inr (
            st,
            rw same at (cut_found b'/' part a st e),
            ground (arith, good, same_step),
            ground (arith, e, good, h),
          )
    ]
  ],
  λ h. elim h [
    | inl (clean, whole, one) ↦ ground (arith, cut_of_clean b'/' part clean, whole, one)
    | inr (st, cuts, number, positive_step) ↦
        ground (arith, Cuts-cut b'/' part body st cuts, number, positive_step)
  ],
)

parse_bounds_lem :
    (a b : Text) (lo hi : ℤ)
    → (parse_bounds a b ≡ ok (lo, hi))
      ↔ ((atoi a ≡ some lo) × (atoi b ≡ some hi) × (ltb_ℤ hi lo ≡ false))
unfolding parse_bounds
parse_bounds_lem a b lo hi = elim (Option-cases (atoi a)) [
  | inl e ↦ ground (arith, e)
  | inr (x, e) ↦ elim (Option-cases (atoi b)) [
    | inl f ↦ ground (arith, e, f)
    | inr (y, f) ↦ (
      λ h.
          let same : (x ≡ lo) = ground (arith, e, f, h) in
          let same' : (y ≡ hi) = ground (arith, e, f, h) in
          (e ∙ ap some same, f ∙ ap some same', ground (arith, e, f, h)),
      λ h. ground (arith, h),
    )
  ]
]

parse_body_lem :
    (r : FieldRange) (body : Text) (lo hi : ℤ)
    → (parse_body r body ≡ ok (lo, hi)) ↔ HasBounds r body lo hi
unfolding parse_body
parse_body_lem r body lo hi = elim (Bool-cases (text_beq body (b'*' ∷ []))) [
  | inl star ↦ (
    λ h. inl (star, ground (arith, star, h), ground (arith, star, h)),
    λ h. elim h [
      | inl (t, l, u) ↦ ground (arith, star, l, u)
      | inr (f, rest) ↦ absurd (ground (arith, star, f))
    ],
  )
  | inr other ↦ (
    λ h. inr (
      other,
      elim (Option-cases (cut b'-' body)) [
        | inr ((a, b), e) ↦
            let (start, end, ordered) =
              (parse_bounds_lem a b lo hi).0 (ground (arith, other, e, h)) in
            inl (a, b, cut_found b'-' body a b e, start, end, ordered)
        | inl e ↦ elim (Option-cases (atoi body)) [
          | inl bad ↦ absurd (ground (arith, other, e, bad, h))
          | inr (n, good) ↦
              let same : (n ≡ lo) = ground (arith, other, e, good, h) in
              inr (cut_absent b'-' body e, good ∙ ap some same, ground (arith, other, e, good, h))
        ]
      ],
    ),
    λ h. elim h [
      | inl (t, l, u) ↦ absurd (ground (arith, other, t))
      | inr (f, inl (a, b, cuts, start, end, ordered)) ↦ ground (
        arith,
        other,
        Cuts-cut b'-' body a b cuts,
        (parse_bounds_lem a b lo hi).1 (start, end, ordered),
      )
      | inr (f, inr (clean, number, one)) ↦
          ground (arith, other, cut_of_clean b'-' body clean, number, one)
    ],
  )
]

in_step_lem :
    (a b s w : ℕ) → 0 < s → (in_step a b s w ≡ true) ↔ ((k : ℕ) × (w ≡ a + k * s) × (w ≤ b))
in_step_lem a b s w p = (
  λ h.
      let whole = mod-eq-sub-mul-div (w - a) s in
      let below = mul-div-le (w - a) s in
      let turned = mul_comm s ((w - a) / s) in
      ((w - a) / s, ground (arith, h, whole, below, turned), ground (arith, h)),
  λ h.
      let (k, e, le) = h in
      let off : (w - a ≡ k * s) = omega (arith, e) in
      let none_left : ((w - a) % s ≡ 0) = ap (λ x. x % s) off ∙ mul-mod_left k s in
      ground (arith, none_left, e, le),
)

item_allows_lem :
    (r : FieldRange) (part : Text) (w : ℕ) → (item_allows r part w ≡ true) ↔ Means r part w
item_allows_lem r part w = (
  λ h. elim (Result-cases (parse_step part)) [
    | inl (e, bad) ↦ absurd (ground (arith, bad, h))
    | inr ((body, step), good) ↦ elim (Result-cases (parse_body r body)) [
      | inl (e, bad) ↦ absurd (ground (arith, good, bad, h))
      | inr ((lo, hi), fine) ↦
          let p = (positive step (parse_step_pos part body step good)).1 in
          (
            body,
            step,
            lo,
            hi,
            (parse_step_lem part body step).0 good,
            (parse_body_lem r body lo hi).0 fine,
            (in_step_lem (pos_part lo) (pos_part hi) (pos_part step) w p).0
                (ground (arith, good, fine, h)),
          )
    ]
  ],
  λ h.
      let (body, step, lo, hi, stepped, bounded, reached) = h in
      let good = (parse_step_lem part body step).1 stepped in
      let fine = (parse_body_lem r body lo hi).1 bounded in
      let p = (positive step (parse_step_pos part body step good)).1 in
      ground (
        arith,
        good,
        fine,
        (in_step_lem (pos_part lo) (pos_part hi) (pos_part step) w p).1 reached,
      ),
)

some_item_allows_lem :
    (r : FieldRange) (parts : List Text) (w : ℕ)
    → (some_item_allows r parts w ≡ true) ↔ SomeMeans r parts w
some_item_allows_lem r [] w = (λ h. absurd cc, λ h. elim h [ ])
some_item_allows_lem r (part ∷ parts) w = (
  λ h. elim (Bool-cases (item_allows r part w)) [
    | inl here ↦ inl ((item_allows_lem r part w).0 here)
    | inr there ↦ inr ((some_item_allows_lem r parts w).0 (ground (arith, there, h)))
  ],
  λ h. elim h [
    | inl here ↦ ground (arith, (item_allows_lem r part w).1 here)
    | inr there ↦ ground (arith, (some_item_allows_lem r parts w).1 there)
  ],
)

-- An accepted field other than `*` matches a value exactly when one of its items, which stand between commas, means
-- it: the item is `*`, `a-b` or `n`, with `/s` behind it or not, and the value is `a` and some number of steps of
-- `s`, up to `b`. This is so provided that no step is so large that the addition of it wraps.
pub parse_field_means :
    (r : FieldRange) (s : Text) (f : CronField)
    → r.min ≤ r.max
    → r.max ≤ 59
    → text_beq s (b'*' ∷ []) ≡ false
    → AllFit (split b',' s)
    → parse_field s r ≡ ok f
    → (w : ℕ) → (matches f w ≡ true) ↔ SomeMeans r (split b',' s) w
parse_field_means r s f ordered small star fits h w =
    let same = parse_field-matches r ordered small s f star fits h w in
    let meant = some_item_allows_lem r (split b',' s) w in
    (λ m. meant.0 (sym same ∙ m), λ m. same ∙ meant.1 m)
