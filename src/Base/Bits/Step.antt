-- ===== src/Base/Bits/Step.antt =====
-- `&` and `|` at their lowest binary digit: what the two native operations are on a / 2 and b / 2
-- with one digit put behind.
use Prim.Native.Nat.{ℕ, zero, suc, ◌+◌, ◌*◌, ◌/◌, ◌%◌, ◌≤◌, min, max, bit_and, bit_or}
use Prim.Native.Nat.{digits, bitwise, bit_and-bitwise, bit_or-bitwise}
use mathlib.Core.Path.{◌≡◌, refl, ap}
use native.Mathlib.Omega.{arith}

module _ (tail : ℕ → ℕ) (op : ℕ → ℕ → ℕ) where
  -- Fuel beyond the first operand is not used.
  spare_fuel :
      (x y low high : ℕ) → low ≤ high → x ≤ low → digits tail op high x y ≡ digits tail op low x y
  spare_fuel zero y zero zero _ _ = refl
  spare_fuel zero y zero (suc high) _ _ = refl
  spare_fuel zero y (suc low) (suc high) _ _ = refl
  spare_fuel zero y (suc low) zero le _ = absurd (omega (arith, le))
  spare_fuel (suc x) y zero high _ enough = absurd (omega (arith, enough))
  spare_fuel (suc x) y (suc low) zero le _ = absurd (omega (arith, le))
  spare_fuel (suc x) y (suc low) (suc high) le enough =
      let halves =
        spare_fuel (suc x / 2) (y / 2) low high (omega (arith, le)) (omega (arith, enough)) in
      ap (λ d. d * 2 + op (suc x % 2) (y % 2)) halves

  lowest_digit :
      (x y : ℕ)
      → bitwise tail op (suc x) y ≡ op (suc x % 2) (y % 2) + 2 * bitwise tail op (suc x / 2) (y / 2)
  lowest_digit x y =
      let halves = spare_fuel (suc x / 2) (y / 2) (suc x / 2) x (omega arith) (omega arith) in
      omega (arith, halves)

pub bit_and_step : (x y : ℕ) → bit_and x y ≡ bit_and (x / 2) (y / 2) * 2 + min (x % 2) (y % 2)
bit_and_step zero y = simp bit_and-bitwise (omega arith)
bit_and_step (suc x) y = simp bit_and-bitwise (omega (arith, lowest_digit (λ rest. 0) min x y))

pub bit_or_step : (x y : ℕ) → bit_or x y ≡ bit_or (x / 2) (y / 2) * 2 + max (x % 2) (y % 2)
bit_or_step zero y = simp bit_or-bitwise (omega arith)
bit_or_step (suc x) y = simp bit_or-bitwise (omega (arith, lowest_digit (λ rest. rest) max x y))
