-- ===== src/Scheduler/Cron/Ranges.antt =====
-- The sets of values that the loop of `parseField` builds (internal/host/scheduler/cron.go).
use native.Mathlib.Nat.{mod-eq_of_lt, mod-eq-sub-mod}
use nova_nas.Base.{
  ℕ, zero, suc, ◌+◌, ◌-◌, ◌%◌, ◌≤◌, ◌<◌, ◌≡◌, refl, ap, ◌∙◌, inl, inr, Bool, true, false, ◌&&◌,
  ◌||◌, some, List, [], ◌∷◌, ltb, leb, ◌==◌, ℤ, pos, ltb_ℤ, eqb_ℤ, max_int, Bool-cases, arith,
}
use nova_nas.Scheduler.Cron.{scan}
use nova_nas.Scheduler.Cron.Parse.{add_value, add_range}

-- Every element is greater than `x`.
abbrev pub Above : ℤ → List ℤ → Type 0
Above x [] = Unit
Above x (y ∷ ys) = (ltb_ℤ x y ≡ true) × Above x ys

-- Sorted, with no element twice.
abbrev pub Ascending : List ℤ → Type 0
Ascending [] = Unit
Ascending (x ∷ xs) = Above x xs × Ascending xs

Above-trans : (x y : ℤ) (ys : List ℤ) → ltb_ℤ x y ≡ true → Above y ys → Above x ys
Above-trans x y [] h a = tt
Above-trans x y (z ∷ ys) h a = (ground arith, Above-trans x y ys h a.1)

Above-add_value :
    (x v : ℤ) (set : List ℤ) → ltb_ℤ x v ≡ true → Above x set → Above x (add_value v set)
unfolding add_value
Above-add_value x v [] h a = (h, tt)
Above-add_value x v (y ∷ ys) h a = ground (arith, Above-add_value x v ys h a.1)

pub add_value-Ascending : (v : ℤ) (set : List ℤ) → Ascending set → Ascending (add_value v set)
unfolding add_value
add_value-Ascending v [] a = (tt, tt)
add_value-Ascending v (x ∷ xs) (above, a) = elim (Bool-cases (eqb_ℤ x v)) [
  | inl e ↦ rw e (above, a)
  | inr n ↦ elim (Bool-cases (ltb_ℤ v x)) [
    | inl lt ↦ rw (n, lt) ((lt, Above-trans v x xs lt above), (above, a))
    | inr ge ↦ rw (n, ge) (Above-add_value x v xs (ground arith) above, add_value-Ascending v xs a)
  ]
]

-- On an ascending list the early stop of `scan` loses nothing.
pub scan_below : (x v : ℤ) (xs : List ℤ) → Above x xs → ltb_ℤ v x ≡ true → scan xs v ≡ false
unfolding scan
scan_below x v [] a h = refl
scan_below x v (y ∷ ys) a h = ground arith

pub scan-add_value :
    (v w : ℤ) (set : List ℤ) → Ascending set → scan (add_value v set) w ≡ (eqb_ℤ v w || scan set w)
unfolding scan add_value
scan-add_value v w [] a = ground arith
scan-add_value v w (x ∷ xs) (above, a) =
    ground (arith, scan-add_value v w xs a, scan_below x v xs above, scan_below x w xs above)

-- `w` is one of `a, a + s, a + 2s, …` up to `b`.
abbrev pub in_step : ℕ → ℕ → ℕ → ℕ → Bool
in_step a b s w = leb a w && leb w b && (w - a) % s == 0

mod_back : (a s w : ℕ) → a + s ≤ w → (w - a) % s ≡ (w - (a + s)) % s
mod_back a s w h =
    let e : w - a - s ≡ w - (a + s) = omega arith in
    mod-eq-sub-mod {n = w - a} {m = s} (omega arith) ∙ ap (λ (n : ℕ). n % s) e

mod_small : (a s w : ℕ) → w < a + s → 0 < s → (w - a) % s ≡ w - a
mod_small a s w h p = mod-eq_of_lt (omega arith)

in_step_next : (a b s w : ℕ) → 0 < s → a ≤ b → in_step a b s w ≡ (in_step (a + s) b s w || a == w)
in_step_next a b s w p h = elim (Bool-cases (leb (a + s) w)) [
  | inl far ↦ ground (arith, mod_back a s w (ground arith))
  | inr near ↦ ground (arith, mod_small a s w (ground arith) p)
]

module _ (b s w : ℕ) (pos_step : 0 < s) (no_wrap : s + b ≤ max_int) where
  -- Where no addition wraps, the loop adds exactly the values of the range to the set.
  pub scan-add_range :
      (fuel a : ℕ) (set set' : List ℤ)
      → Ascending set
      → add_range fuel (pos a) (pos b) (pos s) set ≡ some set'
      → Ascending set' × (scan set' (pos w) ≡ (in_step a b s w || scan set (pos w)))
  unfolding add_range
  scan-add_range zero a set out asc h = absurd (cc)
  scan-add_range (suc fuel) a set out asc h = elim (Bool-cases (ltb b a)) [
    | inl over ↦ ground arith
    | inr within ↦
        let bound : a ≤ b = ground arith in
        let rest =
          scan-add_range fuel (a + s) (add_value (pos a) set) out
            (add_value-Ascending (pos a) set asc) (ground arith) in
        ground
          (arith, rest, in_step_next a b s w pos_step bound, scan-add_value (pos a) (pos w) set asc)
  ]
