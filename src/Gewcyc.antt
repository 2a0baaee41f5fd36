-- ===== src/Gewcyc.antt =====
-- recomp/gewcyc: the accessors of a thread cycle, over the fields that they read. A double is its
-- 64-bit pattern.
use tnc640unix.Base.{
  ℕ, zero, suc, ◌-◌, ◌<◌, ◌≡◌, refl, Bool, true, false, Option, none, some, List, [], ◌∷◌,
  if◌then◌else◌, ◌==◌, ltb, length, arith, bit_and, bit_or, double_leb, fabs, ◌≢◌, ◌⊎◌, inl, inr,
}
use tnc640unix.Dmathe.{half_pi, pi, three_half_pi, Point}

-- GcSub2
pub record Descriptor : Type 0 where
  pub d58 : ℕ
  pub d60 : ℕ
  pub d80 : ℕ
  pub gates : ℕ

-- A geotec, with the direction flag of the record at 0x14; `none` is a null pointer.
pub record GcGeotec : Type 0 where
  pub flag : ℕ
  pub descriptor : Option Descriptor
  pub start_point : Point
  pub end_point : Point

-- `GCYC_Geostart`
unfoldable pub geostart : GcGeotec → Point
geostart e = if e.flag == 1 then e.end_point else e.start_point

-- `GCYC_Geoziel`
unfoldable pub geoziel : GcGeotec → Point
geoziel e = if e.flag == 1 then e.start_point else e.end_point

-- `GCYC_SetInkSteigung`: the pitch and the flags; `none` where the code reads through null.
unfoldable pub set_ink_steigung : GcGeotec → ℕ → ℕ → Option (ℕ × ℕ)
set_ink_steigung e flags eps = read e.descriptor
  where
    read : Option Descriptor → Option (ℕ × ℕ)
    read none = none
    read (some s) =
        some (
          s.d60,
          (if double_leb (fabs s.d60) eps then bit_and flags 0xfdff else bit_or flags 0x200),
        )

-- `GCYC_LeseAltko`
unfoldable pub lese_altko : GcGeotec → ℕ × (ℕ × ℕ)
lese_altko e = read e.descriptor
  where
    gated : Descriptor → ℕ → ℕ → ℕ
    gated s mask d = if bit_and s.gates mask == 0 then 0 else d

    read : Option Descriptor → ℕ × (ℕ × ℕ)
    read none = (0, (0, 0))
    read (some s) = (gated s 2 s.d58, (gated s 4 s.d60, gated s 0x40 s.d80))

-- The five doubles of a Span
pub record Span : Type 0 where
  pub d8 : ℕ
  pub d10 : ℕ
  pub d18 : ℕ
  pub d20 : ℕ
  pub d38 : ℕ

-- The node that `steps` pointers lead to; `none` where the walk reads through null.
unfoldable pub span_after : ℕ → List Span → Option Span
span_after steps [] = none
span_after zero (p ∷ ps) = some p
span_after (suc n) (p ∷ ps) = span_after n ps

-- `GCYC_Hole_Spandaten`
unfoldable pub hole_spandaten : List Span → ℕ → Option (List ℕ)
hole_spandaten ps index = read (span_after (if ltb 1 index then index - 1 else 0) ps)
  where
    read : Option Span → Option (List ℕ)
    read none = none
    read (some p) = some (p.d18 ∷ p.d20 ∷ p.d8 ∷ p.d10 ∷ p.d38 ∷ [])

-- `GCYC_SimpelAbhebeWinkel`
unfoldable pub simpel_abhebe_winkel : ℕ → ℕ
simpel_abhebe_winkel flag =
    if flag == 0x20
    then three_half_pi
    else if ltb flag 0x21
    then if flag == 1 then pi else if flag == 4 then 0 else half_pi
    else if flag == 0x100000
    then 0
    else half_pi

-- A walk stays inside a list that has more nodes than the walk has steps.
pub span_after-reaches : (n : ℕ) (ps : List Span) → n < length ps → span_after n ps ≢ none
unfolding span_after
span_after-reaches n [] h = absurd (omega arith)
span_after-reaches zero (p ∷ ps) h = λ e. cc
span_after-reaches (suc n) (p ∷ ps) h = span_after-reaches n ps (omega arith)

-- The ends of an element are its two points, in one order or the other.
pub geostart-geoziel :
    (e : GcGeotec)
    → ((geostart e ≡ e.start_point) × (geoziel e ≡ e.end_point))
      ⊎ ((geostart e ≡ e.end_point) × (geoziel e ≡ e.start_point))
unfolding geostart geoziel
geostart-geoziel e = by (e.flag == 1)
  where
    by :
        (b : Bool)
        → (((if b then e.end_point else e.start_point) ≡ e.start_point)
            × ((if b then e.start_point else e.end_point) ≡ e.end_point))
          ⊎ (((if b then e.end_point else e.start_point) ≡ e.end_point)
              × ((if b then e.start_point else e.end_point) ≡ e.start_point))
    by true = inr (refl, refl)
    by false = inl (refl, refl)
