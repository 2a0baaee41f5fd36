-- ===== src/Base/Doubles.antt =====
-- Doubles as their 64-bit patterns: their order and sign, and their arithmetic as a parameter.
use Prim.Native.Nat.{ℕ, ◌+◌, ◌-◌, ◌%◌, ◌^◌}
use mathlib.Core.Bool.{Bool, ◌&&◌}
use tnc640unix.Base.Tests.{if◌then◌else◌, ltb, leb}

-- A pattern that is not a NaN
abbrev pub is_number : ℕ → Bool
is_number d = leb (d % 2 ^ 63) 0x7ff0000000000000

-- A number that grows with the double; both zeros have the same.
abbrev pub rank : ℕ → ℕ
rank d = if ltb d (2 ^ 63) then 2 ^ 63 + d else 2 ^ 64 - d

-- `a <= b` and `a < b` on doubles
abbrev pub double_leb : ℕ → ℕ → Bool
double_leb a b = is_number a && (is_number b && leb (rank a) (rank b))

abbrev pub double_ltb : ℕ → ℕ → Bool
double_ltb a b = is_number a && (is_number b && ltb (rank a) (rank b))

abbrev pub fabs : ℕ → ℕ
fabs d = d % 2 ^ 63

-- The operations on doubles
pub record Arithmetic : Type 0 where
  pub plus : ℕ → ℕ → ℕ
  pub minus : ℕ → ℕ → ℕ
  pub times : ℕ → ℕ → ℕ
  pub over : ℕ → ℕ → ℕ

-- `-d`
abbrev pub negated : ℕ → ℕ
negated d = (d + 2 ^ 63) % 2 ^ 64
