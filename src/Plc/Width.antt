-- ===== src/Plc/Width.antt =====
-- The decimal width that libplcmap's NumberOfCharacters computes.
use tnc640unix.Base.{
  ℕ, zero, suc, ◌+◌, ◌-◌, ◌*◌, ◌/◌, ◌^◌, ◌<◌, ◌≤◌, ◌≡◌, ◌≢◌, refl, ap, ◌∙◌, ◌⊎◌, inl, inr, true,
  false, none, some, arith, if◌then◌else◌, ltb, slt32, Bool-cases,
}
use tnc640unix.Plc.Map.{abs32, divisions, number_of_characters}

-- 10^k
pub pow10 : ℕ → ℕ
pow10 zero = 1
pow10 (suc k) = 10 * pow10 k

-- `a` has `k + 1` decimal digits.
pub record Digits (a k : ℕ) : Type 0 where
  pub least : (k ≡ 0) ⊎ (pow10 k ≤ a)
  pub most : a < pow10 (suc k)

divisions-last : (f a cnt : ℕ) → a ≤ 99 → divisions (suc f) a cnt ≡ some (cnt + 1)
unfolding divisions
divisions-last f a cnt le = ground arith

divisions-more :
    (f a cnt : ℕ) → 99 < a → a < 2 ^ 31 → divisions (suc f) a cnt ≡ divisions f (a / 10) (cnt + 1)
unfolding divisions
divisions-more f a cnt lt small = ground arith

-- Enough fuel for the number's size ends the loop, with one turn for each digit but the first.
divisions-Digits :
    (f a cnt : ℕ)
    → 9 < a
    → a < 2 ^ 31
    → a < pow10 (suc f)
    → (k : ℕ) × (divisions f a cnt ≡ some (cnt + k)) × Digits a k
unfolding pow10
divisions-Digits zero a cnt lt small le = absurd (omega arith)
divisions-Digits (suc f) a cnt lt small le = elim (Bool-cases (ltb 99 a)) [
  | inr h ↦ (
    1,
    divisions-last f a cnt (short h),
    record { least = inr (omega arith); most = omega (arith, short h) },
  )
  | inl h ↦
      let (k, e, d) =
        divisions-Digits f (a / 10) (cnt + 1) (omega (arith, long h)) (omega arith)
          (omega (arith, le)) in
      (
        suc k,
        divisions-more f a cnt (long h) small ∙ e ∙ ap some (omega arith),
        record {
          least = inr (elim d.least [
            | inl z ↦ omega (arith, ap pow10 z, long h)
            | inr le ↦ omega (arith, le)
          ]);
          most = omega (arith, d.most);
        },
      )
]
  where
    short : ltb 99 a ≡ false → a ≤ 99
    short h = ground arith

    long : ltb 99 a ≡ true → 99 < a
    long h = ground arith

-- For every int but the least one, NumberOfCharacters ends and returns the number of decimal digits
-- of its absolute value, and one more for the sign of a negative one.
pub number_of_characters-Digits :
    (w : ℕ)
    → w < 2 ^ 32
    → w ≢ 2 ^ 31
    → (k : ℕ) × (number_of_characters w ≡ some (1 + k + (if ltb w (2 ^ 31) then 0 else 1)))
      × Digits (if ltb w (2 ^ 31) then w else 2 ^ 32 - w) k
unfolding number_of_characters pow10 abs32
number_of_characters-Digits w h ne = elim (Bool-cases (slt32 9 (abs32 w))) [
  | inl big ↦
      let (k, e, d) = divisions-Digits 10 (abs32 w) 1 (large big) size (omega (arith, size)) in
      (
        k,
        (λ i. elim (if big i then divisions 10 (abs32 w) 1 else some 1) [
          | none ↦ none
          | some cnt ↦ some (cnt + sign)
        ])
            ∙ (λ i. elim (e i) [ none ↦ none | some cnt ↦ some (cnt + sign) ]),
        d,
      )
  | inr small ↦ (
    0,
    (λ i. elim (if small i then divisions 10 (abs32 w) 1 else some 1) [
      | none ↦ none
      | some cnt ↦ some (cnt + sign)
    ]),
    record { least = inl refl; most = few small },
  )
]
  where
    sign : ℕ
    sign = if ltb w (2 ^ 31) then 0 else 1

    size : abs32 w < 2 ^ 31
    size = ground (arith, h, ne)

    large : slt32 9 (abs32 w) ≡ true → 9 < abs32 w
    large e = ground (arith, size)

    few : slt32 9 (abs32 w) ≡ false → abs32 w < 10
    few e = ground (arith, size)
