-- ===== src/Geometri/Classify.antt =====
-- recomp/geometri2: the encodings of a coordinate once more, as another translation of the same
-- library has them. An element is an array of 32-bit words by their index.
use tnc640unix.Base.{
  ℕ, ◌*◌, ◌<◌, ◌≡◌, Bool, false, ◌&&◌, ◌||◌, not, arith, if◌then◌else◌, ◌==◌, ltb, bit_and,
  bit_and_comm,
}
use tnc640unix.Geometri.{
  Words, geo_coord_field, is_polare_laenge, is_cart_inkrement, is_polarer_winkel,
}

-- The masked flags of the field at an index
abbrev pub masked_word : Words → ℕ → ℕ
masked_word a i = bit_and (a i) 0x126

-- `classify`
unfoldable pub classify : ℕ → Words → ℕ → Bool
classify mask a k =
    if bit_and mask (a 23) == 0 && not (bit_and mask (a 22) == 0)
    then if mask == 0x200000
      then masked_word a 60 == k
      else if ltb 0x200000 mask
      then if mask == 0x400000 then masked_word a 61 == k else false
      else if mask == 0x4000
      then masked_word a 54 == k
      else if mask == 0x8000
      then masked_word a 55 == k
      else false
    else false

-- `IsCartInkrement` to `IsPolaresWinkelInkrement` of this file
abbrev pub cart_inkrement : ℕ → Words → Bool
cart_inkrement mask a = classify mask a 2

abbrev pub polare_laenge : ℕ → Words → Bool
polare_laenge mask a = classify mask a 4

abbrev pub polares_laengen_inkrement : ℕ → Words → Bool
polares_laengen_inkrement mask a = classify mask a 6

abbrev pub polarer_winkel : ℕ → Words → Bool
polarer_winkel mask a = classify mask a 32

abbrev pub polares_winkel_inkrement : ℕ → Words → Bool
polares_winkel_inkrement mask a = classify mask a 34

-- The words of an element by their index
abbrev pub indexed : Words → Words
indexed g i = g (4 * i)

-- The class of a coordinate is the value of its field, for every value that a field can have.
pub classify-geo_coord_field :
    (mask : ℕ) (g : Words) (k : ℕ)
    → k < 0xffffffff
    → classify mask (indexed g) k ≡ (geo_coord_field mask g == k)
unfolding classify geo_coord_field
classify-geo_coord_field mask g k h = rw (bit_and_comm mask (g 0x5c)) (
    rw (bit_and_comm mask (g 0x58)) (
      agree (bit_and (g 0x5c) mask) (bit_and (g 0x58) mask) (bit_and (g 0xf0) 0x126)
        (bit_and (g 0xf4) 0x126) (bit_and (g 0xd8) 0x126) (bit_and (g 0xdc) 0x126)))
  where
    agree :
        (off on f0 f4 d8 dc : ℕ)
        → (if off == 0 && not (on == 0)
            then if mask == 0x200000
              then f0 == k
              else if ltb 0x200000 mask
              then if mask == 0x400000 then f4 == k else false
              else if mask == 0x4000
              then d8 == k
              else if mask == 0x8000
              then dc == k
              else false
            else false)
          ≡ ((if not (off == 0) || on == 0
                then 0xffffffff
                else if mask == 0x200000
                then f0
                else if mask == 0x4000
                then d8
                else if mask == 0x8000
                then dc
                else if mask == 0x400000
                then f4
                else 0xffffffff)
              == k)
    agree off on f0 f4 d8 dc = ground arith

-- The two translations agree on the polar length, the increment and the polar angle.
pub polare_laenge_same :
    (mask : ℕ) (g : Words) → polare_laenge mask (indexed g) ≡ is_polare_laenge mask g
unfolding is_polare_laenge
polare_laenge_same mask g = classify-geo_coord_field mask g 4 (omega arith)

pub cart_inkrement_same :
    (mask : ℕ) (g : Words) → cart_inkrement mask (indexed g) ≡ is_cart_inkrement mask g
unfolding is_cart_inkrement
cart_inkrement_same mask g = classify-geo_coord_field mask g 2 (omega arith)

pub polarer_winkel_same :
    (mask : ℕ) (g : Words) → polarer_winkel mask (indexed g) ≡ is_polarer_winkel mask g
unfolding is_polarer_winkel
polarer_winkel_same mask g = classify-geo_coord_field mask g 32 (omega arith)
