-- ===== src/Scheduler/Cron/RangeFuel.antt =====
-- The fuel of the range loop is enough, also where the 64-bit addition wraps.
use nova_nas.Base.{
  ℕ, zero, suc, ◌+◌, ◌-◌, ◌*◌, ◌≤◌, ◌<◌, ◌≡◌, inl, inr, true, Option, some, List, ltb, leb, ℤ, pos,
  negsuc, ltb_ℤ, add_int, max_int, Bool-cases, arith,
}
use nova_nas.Scheduler.Cron.Parse.{add_value, add_range}

abbrev Ends : Option (List ℤ) → Type 0
Ends r = (set : List ℤ) × (r ≡ some set)

-- Past the end, one round is enough.
Ends-over :
    (fuel : ℕ) (v hi step : ℤ) (set : List ℤ)
    → ltb_ℤ hi v ≡ true
    → 0 < fuel
    → Ends (add_range fuel v hi step set)
unfolding add_range
Ends-over zero v hi step set over h = elim h [ ]
Ends-over (suc fuel) v hi step set over h = (set, ground arith)

Ends-step :
    (fuel : ℕ) (v w hi step : ℤ) (set : List ℤ)
    → add_int v step ≡ w
    → Ends (add_range fuel w hi step (add_value v set))
    → Ends (add_range (suc fuel) v hi step set)
unfolding add_range
Ends-step fuel v w hi step set e (out, h) = elim (Bool-cases (ltb_ℤ hi v)) [
  | inl over ↦ (set, ground arith)
  | inr within ↦ (out, rw within (rw e h))
]

module _ (b s : ℕ) (small : b ≤ 59) (pos_step : 0 < s) (int_step : s ≤ max_int) where
  Ends-no_wrap :
      (fuel a : ℕ) (set : List ℤ)
      → s + 59 ≤ max_int
      → b + 1 < a + fuel
      → 0 < fuel
      → Ends (add_range fuel (pos a) (pos b) (pos s) set)
  Ends-no_wrap zero a set nw h p = elim p [ ]
  Ends-no_wrap (suc fuel) a set nw h p = elim (Bool-cases (ltb b a)) [
    | inl over ↦ Ends-over (suc fuel) (pos a) (pos b) (pos s) set (ground arith) p
    | inr within ↦
        Ends-step fuel (pos a) (pos (a + s)) (pos b) (pos s) set (ground arith)
          (Ends-no_wrap fuel (a + s) (add_value (pos a) set) nw (omega arith) (ground arith))
  ]

  -- Two additions that wrap lead to a smaller number, or past the end.
  Ends-wrap :
      (fuel a : ℕ) (set : List ℤ)
      → a ≤ 59
      → max_int < s + 59
      → 2 * a + 4 ≤ fuel
      → Ends (add_range fuel (pos a) (pos b) (pos s) set)
  Ends-wrap zero a set le w f = absurd (omega arith)
  Ends-wrap (suc zero) a set le w f = absurd (omega arith)
  Ends-wrap (suc (suc zero)) a set le w f = absurd (omega arith)
  Ends-wrap (suc (suc (suc f))) a set le w h = elim (Bool-cases (leb (a + s) max_int)) [
    | inl fits ↦
        Ends-step (suc (suc f)) (pos a) (pos (a + s)) (pos b) (pos s) set (ground arith)
          (Ends-over (suc (suc f)) (pos (a + s)) (pos b) (pos s) _ (ground arith) (omega arith))
    | inr wraps ↦
        Ends-step (suc (suc f)) (pos a) (negsuc (word - (a + s) - 1)) (pos b) (pos s) set
          (ground arith)
          (elim (Bool-cases (leb word (a + s + s))) [
            | inl back ↦
                Ends-step (suc f) _ (pos (a + s + s - word)) (pos b) (pos s) _ (ground arith)
                  (Ends-wrap (suc f) (a + s + s - word) _ (ground arith) w (ground arith))
            | inr below ↦
                Ends-step (suc f) _ (negsuc (word - (a + s + s) - 1)) (pos b) (pos s) _
                  (ground arith)
                  (Ends-step f _ (pos (a + s + s + s - word)) (pos b) (pos s) _ (ground arith)
                    (Ends-over f _ (pos b) (pos s) _ (ground arith) (omega arith)))
          ])
  ]
    where
      word : ℕ
      word = 18_446_744_073_709_551_616

  -- From a start and to an end below 60, every step ends within the fuel.
  pub add_range_total :
      (a : ℕ) (set : List ℤ) → a ≤ 59 → Ends (add_range 200 (pos a) (pos b) (pos s) set)
  add_range_total a set le = elim (Bool-cases (leb (s + 59) max_int)) [
    | inl fits ↦ Ends-no_wrap 200 a set (ground arith) (omega arith) (omega arith)
    | inr wraps ↦ Ends-wrap 200 a set le (ground arith) (omega arith)
  ]
