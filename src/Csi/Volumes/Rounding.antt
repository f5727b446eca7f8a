-- ===== src/Csi/Volumes/Rounding.antt =====
-- The capacity of volumes.
use nova_nas.Base.{
  ◌≡◌, ◌≢◌, ℕ, ◌+◌, ◌*◌, ◌/◌, ◌%◌, ◌≤◌, ◌<◌, pos, max_int, some, true, false, arith, ◌==◌,
  Bool-cases, inl, inr, ==_iff,
}
use nova_nas.Csi.Volumes.{one_mib, round_up, requested_capacity}

whole_lem :
    (n k : ℕ)
    → (n % one_mib == 0) ≡ true
    → round_up (pos n) one_mib ≡ pos k
    → (n ≡ k) × (n % one_mib ≡ 0)
unfolding round_up
whole_lem n k whole e = (ground (arith, whole, e), (==_iff (n % one_mib) 0).0 whole)

part_lem :
    (n k : ℕ)
    → n + one_mib ≤ max_int
    → (n % one_mib == 0) ≡ false
    → round_up (pos n) one_mib ≡ pos k
    → (k ≡ (n / one_mib + 1) * one_mib) × (n % one_mib ≢ 0)
unfolding round_up
part_lem n k h part e =
    let fits : ((n / one_mib + 1) * one_mib ≤ max_int) = omega arith in
    (ground (arith, part, e, fits), λ z. ground (arith, part, z))

-- Rounding up to a MiB gives a whole number of MiB that is not below what was asked for, and less than one MiB
-- above it, as long as that fits an `int64`.
pub round_up_bounds :
    (n k : ℕ)
    → n + one_mib ≤ max_int
    → round_up (pos n) one_mib ≡ pos k
    → (n ≤ k) × (k < n + one_mib) × (k % one_mib ≡ 0)
round_up_bounds n k h e = elim (Bool-cases (n % one_mib == 0)) [
  | inl whole ↦ let (same, no_rest) = whole_lem n k whole e in omega arith
  | inr part ↦ let (next, a_rest) = part_lem n k h part e in omega arith
]

-- Where a request has a limit alone, and the limit is no whole number of MiB, the capacity of a file system is
-- above the limit.
pub rounded_over_limit :
    (n k : ℕ)
    → 0 < n
    → n + one_mib ≤ max_int
    → n % one_mib ≢ 0
    → round_up
        (requested_capacity (some (record { required_bytes = pos 0; limit_bytes = pos n })))
        one_mib
      ≡ pos k
    → n < k
unfolding requested_capacity
rounded_over_limit n k h m r e = ground (arith, round_up_bounds n k m, h, m, r, e)
