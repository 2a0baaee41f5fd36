-- ===== src/Base/Int.antt =====
-- Signed integers over the native numbers: the values of C's `int`.
use Prim.Native.Nat.{ℕ, suc, ◌+◌, ◌-◌, ◌%◌, ◌^◌, ◌≤◌, compare, Ordering}
use mathlib.Core.Bool.{Bool, true, false}

-- `negsuc n` is -(n + 1).
pub data ℤ : Type 0 where
  pos : ℕ → ℤ
  negsuc : ℕ → ℤ

abbrev pub pos_part : ℤ → ℕ
pos_part (pos n) = n
pos_part (negsuc n) = 0

abbrev pub neg_part : ℤ → ℕ
neg_part (pos n) = 0
neg_part (negsuc n) = suc n

-- a - b, as an integer.
abbrev pub sub_ℕ : ℕ → ℕ → ℤ
sub_ℕ a b = elim (compare b a) [ Ordering.gt ↦ negsuc (b - a - 1) | _ ↦ pos (a - b) ]

-- The integer that a 32-bit pattern stands for as an `int32_t`.
abbrev pub signed32 : ℕ → ℤ
signed32 w = elim (compare w (2 ^ 31)) [ Ordering.lt ↦ pos w | _ ↦ negsuc (2 ^ 32 - w - 1) ]

infix 50 ◌≤ℤ◌
abbrev pub ◌≤ℤ◌ : ℤ → ℤ → Type 0
a ≤ℤ b = pos_part a + neg_part b ≤ pos_part b + neg_part a

-- The signed comparisons of two 32-bit patterns: adding 2^31 keeps the order of the signed values.
abbrev pub slt32 : ℕ → ℕ → Bool
slt32 a b = elim (compare ((a + 2 ^ 31) % 2 ^ 32) ((b + 2 ^ 31) % 2 ^ 32)) [
  | Ordering.lt ↦ true
  | _ ↦ false
]
