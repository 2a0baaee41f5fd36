-- ===== src/Plc/Map.antt =====
-- libplcmap: byte swaps, the comparison of 64-bit numbers in halves, and the width of a decimal.
use tnc640unix.Base.{
  ℕ, zero, suc, ◌+◌, ◌-◌, ◌*◌, ◌/◌, ◌%◌, ◌^◌, ◌<◌, ◌≡◌, Option, none, some, arith, if◌then◌else◌,
  ltb, slt32, ℤ, pos, negsuc,
}

-- `Swap_d`: the four masks do not overlap, so the ORs are sums.
unfoldable pub swap_d : ℕ → ℕ
swap_d v = v / 2 ^ 24 + v / 2 ^ 16 % 2 ^ 8 * 2 ^ 8 + v / 2 ^ 8 % 2 ^ 8 * 2 ^ 16 + v % 2 ^ 8 * 2 ^ 24

-- `Swap_w` of a uint16_t
unfoldable pub swap_w : ℕ → ℕ
swap_w v = v % 2 ^ 8 * 2 ^ 8 + v / 2 ^ 8

-- `UQuadCompare`
unfoldable pub u_quad_compare : ℕ → ℕ → ℕ → ℕ → ℤ
u_quad_compare a_hi a_lo b_hi b_lo =
    if ltb b_hi a_hi
    then pos 1
    else if ltb a_hi b_hi
    then negsuc 0
    else if ltb b_lo a_lo
    then pos 1
    else if ltb a_lo b_lo
    then negsuc 0
    else pos 0

-- The absolute value as `NumberOfCharacters` forms it, a 32-bit pattern
unfoldable pub abs32 : ℕ → ℕ
abs32 w = if ltb w (2 ^ 31) then w else 2 ^ 32 - w

-- The do-while loop, on fuel: `prev` is the number before the division.
unfoldable pub divisions : ℕ → ℕ → ℕ → Option ℕ
divisions zero a cnt = none
divisions (suc fuel) a cnt =
    let rest = divisions fuel (a / 10) (cnt + 1) in if slt32 99 a then rest else some (cnt + 1)

-- `NumberOfCharacters` of an int's 32-bit pattern. Ten turns are enough for ten digits.
unfoldable pub number_of_characters : ℕ → Option ℕ
unfolding divisions abs32
number_of_characters w =
    let sign = if ltb w (2 ^ 31) then 0 else 1 in
    let a = abs32 w in
    elim (if slt32 9 a then divisions 10 a 1 else some 1) [
      | none ↦ none
      | some cnt ↦ some (cnt + sign)
    ]

-- Swapping the bytes of a 32-bit word twice gives it back.
pub swap_d-involutive : (v : ℕ) → v < 2 ^ 32 → swap_d (swap_d v) ≡ v
unfolding swap_d
swap_d-involutive v h = omega arith

-- Swapping the bytes of a 16-bit word twice gives it back.
pub swap_w-involutive : (v : ℕ) → v < 2 ^ 16 → swap_w (swap_w v) ≡ v
unfolding swap_w
swap_w-involutive v h = omega arith

abbrev pub order : ℕ → ℕ → ℤ
order a b = if ltb b a then pos 1 else if ltb a b then negsuc 0 else pos 0

-- Comparing two 64-bit numbers by their halves is comparing the numbers.
pub u_quad_compare-order :
    (a_hi a_lo b_hi b_lo : ℕ)
    → a_lo < 2 ^ 32
    → b_lo < 2 ^ 32
    → u_quad_compare a_hi a_lo b_hi b_lo ≡ order (a_hi * 2 ^ 32 + a_lo) (b_hi * 2 ^ 32 + b_lo)
unfolding u_quad_compare
u_quad_compare-order a_hi a_lo b_hi b_lo ha hb = ground arith
