-- ===== src/Geometri.antt =====
-- recomp/geometri: how a coordinate of an element is encoded. An element is the 32-bit words at its
-- offsets.
pub mod Classify
use tnc640unix.Base.{ℕ, ◌≡◌, Bool, false, ◌&&◌, ◌||◌, not, arith, if◌then◌else◌, ◌==◌, bit_and}

abbrev pub Words : Type 0
Words = ℕ → ℕ

-- No field: no value that a coordinate is compared with
abbrev pub no_field : ℕ
no_field = 0xffffffff

-- The masked flags of a coordinate's field
abbrev pub flags_at : Words → ℕ → ℕ
flags_at g o = bit_and (g o) 0x126

-- `geo_coord_field`; the order of the masks does not matter, since they are tested for equality.
unfoldable pub geo_coord_field : ℕ → Words → ℕ
geo_coord_field mask g =
    if not (bit_and (g 0x5c) mask == 0) || bit_and (g 0x58) mask == 0
    then no_field
    else if mask == 0x200000
    then flags_at g 0xf0
    else if mask == 0x4000
    then flags_at g 0xd8
    else if mask == 0x8000
    then flags_at g 0xdc
    else if mask == 0x400000
    then flags_at g 0xf4
    else no_field

unfoldable pub is_polare_laenge : ℕ → Words → Bool
unfolding geo_coord_field
is_polare_laenge mask g = geo_coord_field mask g == 4

unfoldable pub is_cart_inkrement : ℕ → Words → Bool
unfolding geo_coord_field
is_cart_inkrement mask g = geo_coord_field mask g == 2

unfoldable pub is_polarer_winkel : ℕ → Words → Bool
unfolding geo_coord_field
is_polarer_winkel mask g = geo_coord_field mask g == 0x20

-- A coordinate is encoded in one of the three ways at most, whatever its words are.
pub one_encoding :
    (mask : ℕ) (g : Words)
    → ((is_polare_laenge mask g && is_cart_inkrement mask g) ≡ false)
      × (((is_polare_laenge mask g && is_polarer_winkel mask g) ≡ false)
          × ((is_cart_inkrement mask g && is_polarer_winkel mask g) ≡ false))
unfolding is_polare_laenge is_cart_inkrement is_polarer_winkel
one_encoding mask g = proven (geo_coord_field mask g)
  where
    proven :
        (n : ℕ)
        → ((n == 4 && n == 2) ≡ false)
          × (((n == 4 && n == 0x20) ≡ false) × ((n == 2 && n == 0x20) ≡ false))
    proven n = (ground arith, (ground arith, ground arith))

-- A coordinate that its element does not carry is encoded in none of them.
pub not_carried :
    (mask : ℕ) (g : Words)
    → bit_and (g 0x58) mask ≡ 0
    → (is_polare_laenge mask g ≡ false)
      × ((is_cart_inkrement mask g ≡ false) × (is_polarer_winkel mask g ≡ false))
unfolding is_polare_laenge is_cart_inkrement is_polarer_winkel geo_coord_field
not_carried mask g none = (ground (arith, none), (ground (arith, none), ground (arith, none)))
