-- ===== src/Dintabs/Scans.antt =====
-- The descending scans of the thread-relief tables find a row by counting thresholds.
use tnc640unix.Base.{
  ℕ, zero, suc, ◌+◌, ◌<◌, ◌≡◌, refl, ap, ◌∙◌, inl, inr, Bool, true, Option, none, some, List, arith,
  if◌then◌else◌, Bool-cases, all_below, all_below-lem,
}
use tnc640unix.Dintabs.Reliefs.{frei_g_werte, frei_ef_werte}
use tnc640unix.Dintabs.{
  double_leb, scan_down, cell, reaches, hole_din_werte_freistich_ef, hole_din_werte_freistich_g,
}

-- How many of the first `n` indices pass a test
abbrev pub count_below : (ℕ → Bool) → ℕ → ℕ
count_below p zero = 0
count_below p (suc n) = (if p n then 1 else 0) + count_below p n

-- The last of so many
abbrev pub last_of : ℕ → Option ℕ
last_of zero = none
last_of (suc n) = some n

-- A test that passes below every index below `n` at which it passes
abbrev Closed : (ℕ → Bool) → ℕ → Type 0
Closed p n = (i : ℕ) → suc i < n → p (suc i) ≡ true → p i ≡ true

count_all : (p : ℕ → Bool) (n : ℕ) → Closed p (suc n) → p n ≡ true → count_below p n ≡ n
count_all p zero h e = refl
count_all p (suc n) h e =
    let before = h n (omega arith) e in
    rw before (omega (arith, count_all p n (λ i lt. h i (omega (arith, lt))) before))

scan_down-count : (p : ℕ → Bool) (n : ℕ) → Closed p n → scan_down p n ≡ last_of (count_below p n)
unfolding scan_down
scan_down-count p zero h = refl
scan_down-count p (suc n) h = elim (Bool-cases (p n)) [
  | inl hit ↦
      let full : suc n ≡ 1 + count_below p n = omega (arith, count_all p n h hit) in
      rw hit (ap last_of full)
  | inr miss ↦
      let same : count_below p n ≡ 0 + count_below p n = omega arith in
      rw miss (scan_down-count p n (λ i lt. h i (omega (arith, lt))) ∙ ap last_of same)
]

pub double_leb_trans :
    (a b c : ℕ) → double_leb a b ≡ true → double_leb b c ≡ true → double_leb a c ≡ true
double_leb_trans a b c h k = ground arith

-- The thresholds of a table of `n` rows do not fall.
abbrev ascends : List (List ℕ) → ℕ → Bool
ascends rows i = double_leb (cell rows i 0) (cell rows (suc i) 0)

closed :
    (rows : List (List ℕ)) (n x : ℕ)
    → all_below n (ascends rows) ≡ true
    → Closed (reaches x rows) (suc n)
closed rows n x h i lt e =
    double_leb_trans (cell rows i 0) (cell rows (suc i) 0) x
      (all_below-lem n i (ascends rows) h (omega (arith, lt))) e

-- The row of form EF and of form G that a diameter gets is the last one of those whose threshold it
-- reaches, where these are counted in any order: the tables ascend. A NaN and a diameter below all
-- thresholds get none.
pub freistich_row :
    (x : ℕ)
    → (hole_din_werte_freistich_ef x ≡ last_of (count_below (reaches x frei_ef_werte) 6))
      × (hole_din_werte_freistich_g x ≡ last_of (count_below (reaches x frei_g_werte) 25))
unfolding hole_din_werte_freistich_ef hole_din_werte_freistich_g
freistich_row x = (
  scan_down-count (reaches x frei_ef_werte) 6 (closed frei_ef_werte 5 x refl),
  scan_down-count (reaches x frei_g_werte) 25 (closed frei_g_werte 24 x refl),
)
