-- ===== src/Geolib/Unwrap.antt =====
-- The loops of oeffnungswinkel, which add full turns to an angle until it reaches a bound.
use tnc640unix.Base.{
  ℕ, ◌==◌, zero, suc, ◌+◌, ◌≤◌, ◌≡◌, refl, ap, ◌∙◌, true, false, none, some, arith, if◌then◌else◌,
  double_leb, double_ltb, ◌-◌, ◌<◌, inl, inr, Bool-cases, rank, false,
}
use tnc640unix.Geolib.{
  Libm, geo_two_pi, compare_winkel, unwrap, less_from, less_by, oeffnungswinkel,
}

-- The angle after `n` full turns
unfoldable pub turned : Libm → ℕ → ℕ → ℕ
turned m zero l = l
turned m (suc n) l = turned m n (m.ops.plus l geo_two_pi)

-- The loop stops after `n` turns where those before are below the bound and the n-th is not.
pub record Stops (m : Libm) (l bound n : ℕ) : Type 0 where
  pub below : (j : ℕ) → j + 1 ≤ n → double_ltb (turned m j l) bound ≡ true
  pub reached : double_ltb (turned m n l) bound ≡ false

-- -2^53 and 2^53
abbrev pub lowest : ℕ
lowest = 0xc340000000000000

abbrev pub highest : ℕ
highest = 0x4340000000000000

-- A sum with a full turn is above the other summand. Doubles from -2^53 to 2^53 have this law, since
-- those next to each other are at most 1 apart there.
pub record Advances (m : Libm) : Type 0 where
  pub further :
      (l : ℕ)
      → double_leb lowest l ≡ true
      → double_ltb l highest ≡ true
      → double_ltb l (m.ops.plus l geo_two_pi) ≡ true

-- How far an angle is below its bound, in doubles
abbrev pub distance_to : ℕ → ℕ → ℕ
distance_to l bound = rank bound - rank l

leb-ltb : (a l k : ℕ) → double_leb a l ≡ true → double_ltb l k ≡ true → double_leb a k ≡ true
leb-ltb a l k p q = ground arith

ltb-leb : (l b h : ℕ) → double_ltb l b ≡ true → double_leb b h ≡ true → double_ltb l h ≡ true
ltb-leb l b h p q = ground arith

ltb-rank : (l k : ℕ) → double_ltb l k ≡ true → rank l < rank k
ltb-rank l k h = ground arith

-- The loop ends, within one round for each double up to the bound and one more.
unwrap-ends :
    (m : Libm) (fuel l bound : ℕ)
    → Advances m
    → double_leb lowest l ≡ true
    → double_leb bound highest ≡ true
    → distance_to l bound < fuel
    → (n : ℕ) × Stops m l bound n × (unwrap m fuel l bound ≡ some (turned m n l))
unfolding unwrap turned
unwrap-ends m zero l bound up from top enough = absurd (omega (arith, enough))
unwrap-ends m (suc fuel) l bound up from top enough = elim (Bool-cases (double_ltb l bound)) [
  | inr done ↦
      (0, record { below = λ j lt. absurd (omega (arith, lt)); reached = done }, rw done refl)
  | inl under ↦
      let k = m.ops.plus l geo_two_pi in
      let further : double_ltb l k ≡ true = up.further l from (ltb-leb l bound highest under top) in
      let (n, stops, ends) =
        unwrap-ends m fuel k bound up (leb-ltb lowest l k from further) top
          (omega (arith, enough, ltb-rank l k further, ltb-rank l bound under)) in
      (suc n, record { below = under_after under stops; reached = stops.reached }, rw under ends)
]
  where
    under_after :
        {n : ℕ}
        → double_ltb l bound ≡ true
        → Stops m (m.ops.plus l geo_two_pi) bound n
        → (j : ℕ) → j + 1 ≤ suc n
        → double_ltb (turned m j l) bound ≡ true
    under_after under stops zero lt = under
    under_after under stops (suc j) lt = stops.below j (omega (arith, lt))

-- What oeffnungswinkel answers: 0 for angles that compare as equal; else one angle less the other, to
-- one of which the first full turns are added that bring it to its bound.
pub data Answers (m : Libm) (a1 a2 dir tol : ℕ) : ℕ → Type 0 where
  equal : (compare_winkel m a1 a2 tol == 1) ≡ true → Answers m a1 a2 dir tol 0
  first_turned :
      (n : ℕ)
      → (compare_winkel m a1 a2 tol == 1) ≡ false
      → double_leb dir 0 ≡ true
      → Stops m a1 (m.ops.minus a2 tol) n
      → Answers m a1 a2 dir tol (m.ops.minus a2 (turned m n a1))
  second_turned :
      (n : ℕ)
      → (compare_winkel m a1 a2 tol == 1) ≡ false
      → double_leb dir 0 ≡ false
      → Stops m a2 (m.ops.minus a1 tol) n
      → Answers m a1 a2 dir tol (m.ops.minus (turned m n a2) a1)

-- oeffnungswinkel ends for every two angles of -2^53 or more whose bounds are 2^53 at most, in both
-- directions, where a sum with a full turn advances: one round for each double between an angle and
-- its bound, and one more, is enough. The answer is 0 for angles that compare as equal, else the
-- second angle less the first, to one of which the direction adds the full turns that it needs to
-- reach its bound and no more.
pub oeffnungswinkel-Answers :
    (m : Libm) (fuel a1 a2 dir tol : ℕ)
    → Advances m
    → double_leb lowest a1 ≡ true
    → double_leb lowest a2 ≡ true
    → double_leb (m.ops.minus a2 tol) highest ≡ true
    → double_leb (m.ops.minus a1 tol) highest ≡ true
    → distance_to a1 (m.ops.minus a2 tol) < fuel
    → distance_to a2 (m.ops.minus a1 tol) < fuel
    → (v : ℕ) × (oeffnungswinkel m fuel a1 a2 dir tol ≡ some v) × Answers m a1 a2 dir tol v
unfolding oeffnungswinkel
oeffnungswinkel-Answers m fuel a1 a2 dir tol up low1 low2 top2 top1 enough1 enough2 =
    elim (Bool-cases (compare_winkel m a1 a2 tol == 1)) [
      | inl same ↦ (0, rw same refl, equal same)
      | inr other ↦ elim (Bool-cases (double_leb dir 0)) [
        | inl down ↦
            let (n, stops, ends) =
              unwrap-ends m fuel a1 (m.ops.minus a2 tol) up low1 top2 enough1 in
            (
              m.ops.minus a2 (turned m n a1),
              rw (other, down) (ap (less_from m a2) ends),
              first_turned n other down stops,
            )
        | inr not_down ↦
            let (n, stops, ends) =
              unwrap-ends m fuel a2 (m.ops.minus a1 tol) up low2 top1 enough2 in
            (
              m.ops.minus (turned m n a2) a1,
              rw (other, not_down) (ap (less_by m a1) ends),
              second_turned n other not_down stops,
            )
      ]
    ]

-- A full turn may be too small to change the angle. Then, for an angle below its bound, no number of
-- rounds is enough: the loop does not end.
pub unwrap-stuck :
    (m : Libm) (fuel l bound : ℕ)
    → m.ops.plus l geo_two_pi ≡ l
    → double_ltb l bound ≡ true
    → unwrap m fuel l bound ≡ none
unfolding unwrap
unwrap-stuck m zero l bound lost below = refl
unwrap-stuck m (suc fuel) l bound lost below =
    ap (λ t. if t then unwrap m fuel (m.ops.plus l geo_two_pi) bound else some l) below
    ∙ ap (λ x. unwrap m fuel x bound) lost
    ∙ unwrap-stuck m fuel l bound lost below
