-- ===== src/Fraescyc.antt =====
-- recomp/fraescyc: the accessors of a milling cycle, over the fields that they read. A double is its
-- 64-bit pattern.
use tnc640unix.Base.{
  ℕ, ◌≡◌, refl, inl, inr, ◌⊎◌, Bool, true, false, ◌&&◌, ◌||◌, not, Option, none, some,
  if◌then◌else◌, ◌==◌, ℤ, pos, negsuc, double_leb, double_ltb, fabs, Arithmetic,
}

-- The fields at 0x10, 0x74, 0x94, 0x148, 0x16c, 0x170 and 0x192 of a tec_cycfraes_rt
pub record Cycle : Type 0 where
  pub active : ℕ
  pub depth : ℕ
  pub threshold : ℕ
  pub plane : ℕ
  pub feed_set : ℕ
  pub feed : ℕ
  pub feed_kind : ℕ

-- FC_BIG
abbrev pub fc_big : ℕ
fc_big = 0x47c2ced32a16a1b1

-- `FCYC_FraesTiefe`; `none` is a null pointer.
unfoldable pub fraes_tiefe : Option Cycle → ℕ
fraes_tiefe none = 0
fraes_tiefe (some p) = if p.active == 0 then 0 else p.depth

-- `FCYC_AbhebeLaenge`
unfoldable pub abhebe_laenge : Arithmetic → Cycle → ℕ → ℕ
abhebe_laenge a p v =
    let l = fabs (a.minus p.plane v) in
    if double_ltb (fabs p.plane) fc_big && double_leb p.threshold l then l else 0

abbrev below_two : ℤ → Bool
below_two (pos n) = n == 0 || n == 1
below_two (negsuc n) = true

abbrev is_one : ℤ → Bool
is_one (pos n) = n == 1
is_one (negsuc n) = false

-- `FCYC_VorschubArt`
unfoldable pub vorschub_art : Cycle → ℤ → ℤ → ℕ
vorschub_art p a b =
    if p.feed_set == 0
    then if p.feed_kind == 0 then 2 else 0
    else if double_leb p.threshold (fabs p.feed)
    then 0
    else if not (p.feed_kind == 0) && (below_two b || is_one a)
    then 0
    else 2

-- A lift is zero or at least the threshold.
pub abhebe_laenge_reaches :
    (a : Arithmetic) (p : Cycle) (v : ℕ)
    → (abhebe_laenge a p v ≡ 0) ⊎ (double_leb p.threshold (abhebe_laenge a p v) ≡ true)
unfolding abhebe_laenge
abhebe_laenge_reaches a p v =
    let l = fabs (a.minus p.plane v) in
    choose (double_ltb (fabs p.plane) fc_big) (double_leb p.threshold l) l refl
  where
    choose :
        (s t : Bool) (l : ℕ)
        → double_leb p.threshold l ≡ t
        → ((if s && t then l else 0) ≡ 0)
          ⊎ (double_leb p.threshold (if s && t then l else 0) ≡ true)
    choose true true l h = inr h
    choose true false l h = inl refl
    choose false t l h = inl refl
