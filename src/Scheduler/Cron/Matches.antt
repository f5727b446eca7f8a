-- ===== src/Scheduler/Cron/Matches.antt =====
-- `matches` of internal/host/scheduler/cron.go on a field as the parser leaves it.
use mathlib.Core.List.{Memᴰ}
use nova_nas.Base.{
  ℕ, ◌≡◌, sym, ◌↔◌, ◌⊎◌, inl, inr, true, List, [], ◌∷◌, ℤ, pos, eqb_ℤ, eqb_ℤ_iff, Bool-cases, arith,
}
use nova_nas.Scheduler.Cron.{CronField, scan, matches}
use nova_nas.Scheduler.Cron.Ranges.{Ascending, scan_below}

scan_sound : (xs : List ℤ) (v : ℤ) → scan xs v ≡ true → Memᴰ v xs
unfolding scan
scan_sound [] v h = absurd cc
scan_sound (x ∷ xs) v h = elim (Bool-cases (eqb_ℤ x v)) [
  | inl same ↦ Memᴰ.head (sym ((eqb_ℤ_iff x v).0 same))
  | inr other ↦ Memᴰ.tail (scan_sound xs v (ground arith))
]

scan_complete : (v : ℤ) {xs : List ℤ} → Ascending xs → Memᴰ v xs → scan xs v ≡ true
unfolding scan
scan_complete v asc (Memᴰ.head {x} {xs} e) = ground (arith, (eqb_ℤ_iff x v).1 (sym e))
scan_complete v asc (Memᴰ.tail {x} {xs} m) =
    ground (arith, scan_complete v asc.1 m, scan_below x v xs asc.0)

-- On an ascending field the early stop of the scan is right: the field matches exactly the values that
-- it holds, or all of them if it is a wildcard.
matches_iff :
    (f : CronField) (v : ℕ)
    → Ascending f.values
    → (matches f v ≡ true) ↔ ((f.wildcard ≡ true) ⊎ Memᴰ (pos v) f.values)
unfolding matches
matches_iff f v asc = elim (Bool-cases f.wildcard) [
  | inl wild ↦ (λ h. inl wild, λ h. ground arith)
  | inr plain ↦ (
    λ h. inr (scan_sound f.values (pos v) (rw plain at h)),
    elim [ inl wild ↦ cc | inr m ↦ rw plain (scan_complete (pos v) asc m) ],
  )
]
