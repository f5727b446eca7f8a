-- ===== src/Base/Int.antt =====
-- Signed integers over the native numbers, and Go's 64-bit `int` addition.
use Prim.Native.Nat.{ℕ, suc, ◌+◌, ◌-◌, ◌≤◌, ◌<◌}
use mathlib.Core.Path.{◌≡◌, refl}
use mathlib.Core.Logic.{◌↔◌}
use mathlib.Core.Bool.{Bool, true, false}
use native.Mathlib.Omega.{arith}
use nova_nas.Base.Tests.{ltb, leb, ◌==◌, if◌then◌else◌}

-- `negsuc n` is -(n + 1).
pub data ℤ : Type 0 where
  pos : ℕ → ℤ
  negsuc : ℕ → ℤ

abbrev pub pos_part : ℤ → ℕ
pos_part (pos n) = n
pos_part (negsuc n) = 0

abbrev pub neg_part : ℤ → ℕ
neg_part (pos n) = 0
neg_part (negsuc n) = suc n

abbrev pub sub_ℕ : ℕ → ℕ → ℤ
sub_ℕ a b = if leb b a then pos (a - b) else negsuc (b - a - 1)

-- a < b
abbrev pub ltb_ℤ : ℤ → ℤ → Bool
ltb_ℤ a b = ltb (pos_part a + neg_part b) (pos_part b + neg_part a)

abbrev pub eqb_ℤ : ℤ → ℤ → Bool
eqb_ℤ a b = (pos_part a + neg_part b) == (pos_part b + neg_part a)

abbrev pub max_int : ℕ
max_int = 9_223_372_036_854_775_807

-- A value in `[-2^63, 2^64)` brought back into the range of `int`, by two's complement.
abbrev pub wrap_int : ℤ → ℤ
wrap_int (pos n) = if leb n max_int then pos n else sub_ℕ n 18_446_744_073_709_551_616
wrap_int (negsuc n) = if leb n max_int then negsuc n else pos (18_446_744_073_709_551_615 - n)

-- `a + b` on `int`
abbrev pub add_int : ℤ → ℤ → ℤ
add_int a b = wrap_int (sub_ℕ (pos_part a + pos_part b) (neg_part a + neg_part b))

pub eqb_ℤ_iff : (a b : ℤ) → (eqb_ℤ a b ≡ true) ↔ (a ≡ b)
eqb_ℤ_iff a b = ground arith

-- A value that is not below a natural number is one.
pub nonneg : (z : ℤ) (n : ℕ) → ltb_ℤ z (pos n) ≡ false → z ≡ pos (pos_part z)
nonneg (pos a) n h = refl
nonneg (negsuc a) n h = ground arith

pub pos_part_bound : (z : ℤ) (n : ℕ) → ltb_ℤ (pos n) z ≡ false → pos_part z ≤ n
pos_part_bound (pos a) n h = ground arith
pos_part_bound (negsuc a) n h = omega arith

pub pos_part_above : (z : ℤ) (n : ℕ) → ltb_ℤ z (pos n) ≡ false → n ≤ pos_part z
pos_part_above (pos a) n h = ground arith
pos_part_above (negsuc a) n h = absurd (ground arith)

pub positive : (z : ℤ) → ltb_ℤ (pos 0) z ≡ true → (z ≡ pos (pos_part z)) × (0 < pos_part z)
positive (pos a) h = (refl, ground arith)
positive (negsuc a) h = absurd (ground arith)
