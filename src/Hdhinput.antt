-- ===== src/Hdhinput.antt =====
-- The accessors and the range check of libhdhinput over a number-type descriptor, the list of its
-- bytes.
use tnc640unix.Base.{
  ℕ, ◌+◌, ◌-◌, ◌*◌, ◌/◌, ◌%◌, ◌^◌, Bool, true, false, ◌&&◌, ◌||◌, not, Option, none, some, List, [],
  ◌∷◌, if◌then◌else◌, ◌==◌, ltb, leb, get_or, get32, drop, slt32, bit_and, ◌≡◌, ◌⊎◌, arith,
}

-- `d[i]`
abbrev pub byte_at : List ℕ → ℕ → ℕ
byte_at d i = get_or d i 0

-- The type code, `d[2]`
abbrev pub type_of : List ℕ → ℕ
type_of d = byte_at d 2

-- `type_active`
unfoldable pub type_active : ℕ → Bool
type_active t = if ltb t 7 then not (t == 0) else t == 8

abbrev flag : ℕ → List ℕ → ℕ
flag mask d = if type_active (type_of d) then bit_and (byte_at d 16) mask else 0

-- `get_pzt_export`, `get_pzt_vorz`, `get_pzt_igsign`
unfoldable pub get_pzt_export : List ℕ → ℕ
unfolding type_active
get_pzt_export d = flag 0x40 d

unfoldable pub get_pzt_vorz : List ℕ → ℕ
unfolding type_active
get_pzt_vorz d = flag 0x20 d

unfoldable pub get_pzt_igsign : List ℕ → ℕ
unfolding type_active
get_pzt_igsign d = flag 0x80 d

-- `(u8)(d[2] - n)`
abbrev type_minus : ℕ → List ℕ → ℕ
type_minus n d = (type_of d + 256 - n) % 256

unfoldable pub get_pzt_feed : List ℕ → ℕ
get_pzt_feed d = if ltb (type_minus 1 d) 5 then byte_at d 16 / 8 % 2 else 0

unfoldable pub get_pzt_mm_inch : List ℕ → ℕ
get_pzt_mm_inch d = if ltb 1 (type_minus 2 d) then 0 else bit_and (byte_at d 16) 0x10

unfoldable pub get_pzt_hex : List ℕ → Bool
get_pzt_hex d = type_of d == 1 || type_of d == 4

unfoldable pub get_pzt_float : List ℕ → Bool
get_pzt_float d = type_of d == 3

unfoldable pub get_pzt_nkomma : ℕ → List ℕ → ℕ
unfolding type_active
get_pzt_nkomma mode d =
    if not (type_active (type_of d)) then 0 else if mode == 0 then byte_at d 0xf else byte_at d 0xe

unfoldable pub get_pzt_vkomma : ℕ → List ℕ → ℕ
unfolding type_active
get_pzt_vkomma mode d =
    if not (type_active (type_of d)) then 0 else if mode == 0 then byte_at d 0xd else byte_at d 0xc

-- `get_pzt_pstr`: the bytes from d + 4 on, `none` for a null pointer
unfoldable pub get_pzt_pstr : List ℕ → Option (List ℕ)
get_pzt_pstr d = if not (type_of d == 0) then none else some (drop 4 d)

abbrev ones : List ℕ
ones = 0xffffffff ∷ 0xffffffff ∷ 0xffffffff ∷ []

abbrev zeros : List ℕ
zeros = 0 ∷ 0 ∷ 0 ∷ []

-- `get_pzt_perm`: the three words written
unfoldable pub get_pzt_perm : List ℕ → List ℕ
get_pzt_perm d =
    if ltb (type_of d) 7
    then (if type_of d == 0 then get32 d 4 ∷ get32 d 8 ∷ get32 d 12 ∷ [] else ones)
    else if not (type_of d == 8)
    then zeros
    else ones

-- `CheckMinMax`: the least value at d + 8, the greatest at d + 4
unfoldable pub check_min_max : ℕ → List ℕ → Bool
unfolding get_pzt_vorz
check_min_max value d =
    if get_pzt_vorz d == 0
    then leb value (get32 d 4) && leb (get32 d 8) value
    else not (slt32 (get32 d 4) value) && not (slt32 value (get32 d 8))

abbrev negated : ℕ → ℕ
negated v = (2 ^ 32 - v) % 2 ^ 32

abbrev without_bit30 : ℕ → ℕ
without_bit30 v = v % 2 ^ 30 + v / 2 ^ 31 * 2 ^ 31

-- `xf_clear_bit30`
unfoldable pub xf_clear_bit30 : ℕ → ℕ
xf_clear_bit30 v = if ltb v (2 ^ 31) then without_bit30 v else negated (without_bit30 (negated v))

-- `xf_inc_if_neg`
unfoldable pub xf_inc_if_neg : ℕ → ℕ
xf_inc_if_neg v = if ltb v (2 ^ 31) then v else (v + 1) % 2 ^ 32

-- `check_pzt_range`
unfoldable pub check_pzt_range : ℕ → List ℕ → Bool
unfolding check_min_max xf_clear_bit30 xf_inc_if_neg
check_pzt_range value d =
    let t = type_of d in
    if t == 0 || t == 7
    then false
    else if t == 1 || (t == 2 || (t == 4 || t == 5))
    then check_min_max value d
    else if t == 3
    then check_min_max (xf_clear_bit30 value) d
    else if t == 6
    then check_min_max (xf_inc_if_neg value) d
    else if t == 8
    then value == 0xff || ltb ((value + 1) % 2 ^ 32) 2
    else true

-- `check_zt_char` on the 32-bit pattern of `(int)ch`; `none` is a null bitmap.
unfoldable pub check_zt_char : Option (List ℕ) → ℕ → Bool
check_zt_char none ch = false
check_zt_char (some bitmap) ch =
    let u = (ch + 2 ^ 32 - 0x20) % 2 ^ 32 in
    ltb u 0x60 && byte_at bitmap (u / 8) / 2 ^ (7 - u % 8) % 2 == 1

-- A value that is in the range of its field is accepted: for an unsigned field of type 1, 2, 4 or
-- 5, whose limits do not change the value first, the check is the two comparisons.
pub check_pzt_range-unsigned :
    (value : ℕ) (d : List ℕ)
    → (type_of d ≡ 1) ⊎ ((type_of d ≡ 2) ⊎ ((type_of d ≡ 4) ⊎ (type_of d ≡ 5)))
    → get_pzt_vorz d ≡ 0
    → check_pzt_range value d ≡ (leb value (get32 d 4) && leb (get32 d 8) value)
unfolding check_pzt_range check_min_max
check_pzt_range-unsigned value d plain unsigned = ground arith
