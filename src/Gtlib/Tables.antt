-- ===== src/Gtlib/Tables.antt =====
-- What the classifiers of recomp/gtlib say, by the lists of their codes.
use tnc640unix.Base.{
  ℕ, all_below-lem, ◌⊎◌, ◌^◌, ◌<◌, ◌≤◌, ◌≡◌, refl, sym, inl, inr, Bool, true, false, ◌&&◌, ◌||◌,
  not, Option, none, some, List, [], ◌∷◌, arith, if◌then◌else◌, ◌==◌, Bool-cases, ltb, leb, bit_and,
}
use tnc640unix.Gtlib.{
  Geotec, holds, leaked, is_ordered, gtf_isbohrung, gtf_isfasrun, gtf_isfreistich, gtf_iseinstich,
  gtf_isfigurrucksack, gtf_isueberlagerung, gtf_iscirc, gtf_iscircw, gtf_iscirccw, gtf_isyebene,
  gtf_ismantel,
}

-- Membership of a code
abbrev pub one_of : List ℕ → ℕ → Bool
one_of [] n = false
one_of (x ∷ xs) n = x == n || one_of xs n

abbrev same : Bool → Bool → Bool
same true b = b
same false b = not b

same-eq : (a b : Bool) → same a b ≡ true → a ≡ b
same-eq true true h = refl
same-eq true false h = sym h
same-eq false true h = h
same-eq false false h = refl

abbrev pub tag_of : Option Geotec → ℕ
tag_of none = 0
tag_of (some p) = p.tag

-- The tags 11, 13, 16, 18 and 19; 8, 9, 10 and 21; and the planes of the two classes
abbrev pub figures : List ℕ
figures = 11 ∷ 13 ∷ 16 ∷ 18 ∷ 19 ∷ []

abbrev pub overlays : List ℕ
overlays = 8 ∷ 9 ∷ 10 ∷ 21 ∷ []

abbrev pub y_planes : List ℕ
y_planes = 4 ∷ 5 ∷ 13 ∷ 14 ∷ []

abbrev pub mantle_planes : List ℕ
mantle_planes = 3 ∷ 5 ∷ 12 ∷ 13 ∷ []

le_or_lt : (a b : ℕ) → (a ≤ b) ⊎ (b < a)
le_or_lt a b = elim (Bool-cases (leb a b)) [
  | inl le ↦ inl (ground arith)
  | inr above ↦ inr (ground arith)
]

figurrucksack-below :
    (p : Geotec) → p.tag < 20 → holds (gtf_isfigurrucksack (some p)) ≡ one_of figures p.tag
unfolding gtf_isfigurrucksack
figurrucksack-below p lt = rw (low) (
    same-eq _ _ (
      all_below-lem 20 p.tag
        (λ i. same (holds (leaked (2 ^ i) (not (bit_and (2 ^ i) 0xd2800 == 0)))) (one_of figures i))
        refl lt))
  where
    low : ltb 0x13 p.tag ≡ false
    low = ground arith

figurrucksack-above :
    (p : Geotec) → 20 ≤ p.tag → holds (gtf_isfigurrucksack (some p)) ≡ one_of figures p.tag
unfolding gtf_isfigurrucksack
figurrucksack-above p le = ground arith

mantel-below : (p : ℕ) → p < 14 → holds (gtf_ismantel p) ≡ one_of mantle_planes p
unfolding gtf_ismantel
mantel-below p lt = rw (low) (
    same-eq _ _ (
      all_below-lem 14 p
        (λ i.
          same (holds (leaked (2 ^ i) (not (bit_and (2 ^ i) 0x3028 == 0))))
            (one_of mantle_planes i))
        refl lt))
  where
    low : ltb 0xd p ≡ false
    low = ground arith

mantel-above : (p : ℕ) → 14 ≤ p → holds (gtf_ismantel p) ≡ one_of mantle_planes p
unfolding gtf_ismantel
mantel-above p le = ground arith

yebene-planes : (p : ℕ) → p < 2 ^ 32 → gtf_isyebene p ≡ one_of y_planes p
unfolding gtf_isyebene
yebene-planes p lt = ground arith

ueberlagerung-tags : (p : Geotec) → gtf_isueberlagerung (some p) ≡ one_of overlays p.tag
unfolding gtf_isueberlagerung gtf_isfasrun gtf_isfreistich gtf_iseinstich gtf_isbohrung
ueberlagerung-tags p = ground arith

-- One of two sides that exclude each other, behind two tests
one_side :
    (c o s : Bool)
    → ((if c then (not s && o) else false) || (if c then (s && o) else false) ≡ (c && o))
      × ((if c then (not s && o) else false) && (if c then (s && o) else false) ≡ false)
one_side true true true = (refl, refl)
one_side true true false = (refl, refl)
one_side true false true = (refl, refl)
one_side true false false = (refl, refl)
one_side false o s = (refl, refl)

side : (d : ℕ) → leb (2 ^ 63) d ≡ not (ltb d (2 ^ 63))
side d = ground arith

-- A circle runs clockwise or counterclockwise, and not both ways, exactly where its radius is
-- neither zero nor a NaN; an element that is no circle runs neither way.
pub circ_directions :
    (p : Geotec)
    → ((gtf_iscircw (some p) || gtf_iscirccw (some p))
        ≡ (holds (gtf_iscirc (some p)) && is_ordered p.radius))
      × ((gtf_iscircw (some p) && gtf_iscirccw (some p)) ≡ false)
unfolding gtf_iscircw gtf_iscirccw
circ_directions p =
    rw (side p.radius)
      (one_side (holds (gtf_iscirc (some p))) (is_ordered p.radius) (ltb p.radius (2 ^ 63)))

-- Each of four classifiers says yes, in the low byte of its answer, exactly for the codes of its
-- list: IsFigurRucksack and IsUeberlagerung for those tags of an element, IsYEbene and IsMantel for
-- those planes, whatever bits of the register are left above the byte.
pub classes_lem :
    (p : Geotec) (plane : ℕ)
    → plane < 2 ^ 32
    → (holds (gtf_isfigurrucksack (some p)) ≡ one_of figures p.tag)
      × (gtf_isueberlagerung (some p) ≡ one_of overlays p.tag)
      × (gtf_isyebene plane ≡ one_of y_planes plane)
      × (holds (gtf_ismantel plane) ≡ one_of mantle_planes plane)
classes_lem p plane lt = (
  elim (le_or_lt 20 p.tag) [
    | inl le ↦ figurrucksack-above p le
    | inr below ↦ figurrucksack-below p below
  ],
  ueberlagerung-tags p,
  yebene-planes plane lt,
  elim (le_or_lt 14 plane) [
    | inl le ↦ mantel-above plane le
    | inr below ↦ mantel-below plane below
  ],
)
