-- ===== src/Base/Bits.antt =====
-- Laws of `&`, `|` and `~` at every width: a number is known by its binary digits, and each
-- operation by what it does to one digit.
mod Step
use Step.{bit_or_step, bit_and_step}
use Prim.Native.Nat.{
  ℕ, zero, suc, ◌+◌, ◌-◌, ◌*◌, ◌/◌, ◌%◌, ◌^◌, ◌≤◌, ◌<◌, min, max, bit_and, bit_or,
}
use mathlib.Core.Path.{◌≡◌, refl}
use native.Mathlib.Nat.{pow-suc}
use native.Mathlib.Decide.{dec_lt}
use native.Mathlib.Omega.{arith}

-- Digit `i` of `x`.
unfoldable pub bit : ℕ → ℕ → ℕ
bit zero x = x % 2
bit (suc i) x = bit i (x / 2)

-- `~x` of a 32-bit word.
abbrev pub bit_not : ℕ → ℕ
bit_not x = 2 ^ 32 - 1 - x

abbrev pub u32 : ℕ → ℕ
u32 n = n % 2 ^ 32

pub bit-lt : (i x : ℕ) → bit i x < 2
unfolding bit
bit-lt zero x = omega arith
bit-lt (suc i) x = bit-lt i (x / 2)

pub bit-bit_and : (i a b : ℕ) → bit i (bit_and a b) ≡ min (bit i a) (bit i b)
unfolding bit
bit-bit_and zero a b = omega (arith, bit_and_step a b)
bit-bit_and (suc i) a b = rw half (bit-bit_and i (a / 2) (b / 2))
  where
    half : bit_and a b / 2 ≡ bit_and (a / 2) (b / 2)
    half = omega (arith, bit_and_step a b)

pub bit-bit_or : (i a b : ℕ) → bit i (bit_or a b) ≡ max (bit i a) (bit i b)
unfolding bit
bit-bit_or zero a b = omega (arith, bit_or_step a b)
bit-bit_or (suc i) a b = rw half (bit-bit_or i (a / 2) (b / 2))
  where
    half : bit_or a b / 2 ≡ bit_or (a / 2) (b / 2)
    half = omega (arith, bit_or_step a b)

pub bit-zero : (i : ℕ) → bit i 0 ≡ 0
unfolding bit
bit-zero zero = refl
bit-zero (suc i) = bit-zero i

-- The complement at width `w`, one digit at a time.
bit-complement : (w i x : ℕ) → x < 2 ^ w → i < w → bit i (2 ^ w - 1 - x) ≡ 1 - bit i x
unfolding bit
bit-complement zero i x fits h = absurd (omega arith)
bit-complement (suc w) zero x fits h = omega (arith, pow-suc 2 w)
bit-complement (suc w) (suc i) x fits h = rw half (bit-complement w i (x / 2) small (omega arith))
  where
    half : (2 ^ suc w - 1 - x) / 2 ≡ 2 ^ w - 1 - x / 2
    half = omega (arith, pow-suc 2 w)

    small : x / 2 < 2 ^ w
    small = omega (arith, pow-suc 2 w)

pub bit-bit_not : (i x : ℕ) → x < 2 ^ 32 → i < 32 → bit i (bit_not x) ≡ 1 - bit i x
bit-bit_not i x = bit-complement 32 i x

-- No digits beyond the width.
pub bit_above : (w i x : ℕ) → x < 2 ^ w → w ≤ i → bit i x ≡ 0
unfolding bit
bit_above zero i x fits h = let e : x ≡ 0 = omega arith in rw e (bit-zero i)
bit_above (suc w) zero x fits h = absurd (omega arith)
bit_above (suc w) (suc i) x fits h =
    bit_above w i (x / 2) (omega (arith, pow-suc 2 w)) (omega arith)

-- The digits of `x & ~y`.
pub bit-clear :
    (i x y : ℕ)
    → x < 2 ^ 32
    → y < 2 ^ 32
    → bit i (bit_and x (bit_not y)) ≡ min (bit i x) (1 - bit i y)
bit-clear i x y hx hy = elim (dec_lt i 32) [
  | yes h ↦ rw (bit-bit_and, bit-bit_not i y hy h)
  | no h ↦ omega (arith, bit-bit_and i x (bit_not y), bit_above 32 i x hx (omega arith))
]

bit_ext_below : (n a b : ℕ) → a ≤ n → b ≤ n → ((i : ℕ) → bit i a ≡ bit i b) → a ≡ b
unfolding bit
bit_ext_below zero a b ha hb h = omega arith
bit_ext_below (suc n) a b ha hb h =
    omega (arith, h 0, bit_ext_below n (a / 2) (b / 2) (omega arith) (omega arith) (λ i. h (suc i)))

-- Two numbers with the same digits are the same.
pub bit_ext : (a b : ℕ) → ((i : ℕ) → bit i a ≡ bit i b) → a ≡ b
bit_ext a b = bit_ext_below (a + b) a b (omega arith) (omega arith)

pub bit_or-lt : (w a b : ℕ) → a < 2 ^ w → b < 2 ^ w → bit_or a b < 2 ^ w
bit_or-lt zero a b ha hb = omega (arith, bit_or_zero_zero)
  where
    ea : a ≡ 0
    ea = omega arith

    eb : b ≡ 0
    eb = omega arith

    bit_or_zero_zero : bit_or a b ≡ 0
    bit_or_zero_zero = rw (ea, eb)
bit_or-lt (suc w) a b ha hb = omega (
  arith,
  bit_or_step a b,
  pow-suc 2 w,
  bit_or-lt w (a / 2) (b / 2) (omega (arith, pow-suc 2 w)) (omega (arith, pow-suc 2 w)),
)

bit_and-le_below : (n a b : ℕ) → a ≤ n → bit_and a b ≤ a
bit_and-le_below n zero b h = omega (arith, bit-nothing b)
  where
    bit-nothing : (c : ℕ) → bit_and 0 c ≡ 0
    bit-nothing c = bit_ext (bit_and 0 c) 0 (λ i. omega (arith, bit-bit_and i 0 c, bit-zero i))
bit_and-le_below zero (suc a) b h = absurd (omega arith)
bit_and-le_below (suc n) (suc a) b h =
    omega (arith, bit_and_step (suc a) b, bit_and-le_below n (suc a / 2) (b / 2) (omega arith))

pub bit_and-le : (a b : ℕ) → bit_and a b ≤ a
bit_and-le a b = bit_and-le_below a a b (omega arith)

pub bit_and_comm : (a b : ℕ) → bit_and a b ≡ bit_and b a
bit_and_comm a b =
    bit_ext (bit_and a b) (bit_and b a) (λ i. omega (arith, bit-bit_and i a b, bit-bit_and i b a))

pub bit_and-le_right : (a b : ℕ) → bit_and a b ≤ b
bit_and-le_right a b = omega (arith, bit_and_comm a b, bit_and-le b a)
