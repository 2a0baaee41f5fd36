-- ===== src/Tools.antt =====
-- The tool-type functions of libEp90_Wznorm: the Geotec code of a tool type, three digits packed in
-- a byte and two nibbles. The numbers and codes of the
-- domain are not negative and so small that no int overflows.
use tnc640unix.Base.{
  ℕ, ◌+◌, ◌-◌, ◌*◌, ◌/◌, ◌%◌, ◌^◌, ◌<◌, ◌≡◌, Bool, true, ◌||◌, not, Option, none, some, arith,
  if◌then◌else◌, ◌==◌, ltb,
}
mod Tests

-- `GeotecToIntWkzTyp` of a code that is not negative
unfoldable pub geotec_to_int_wkz_typ : ℕ → ℕ
geotec_to_int_wkz_typ code = code / 256 * 100 + code % 256 / 16 * 10 + code % 16

-- `IntToGeotecWkzTyp` of a number that is not negative
unfoldable pub int_to_geotec_wkz_typ : ℕ → ℕ
int_to_geotec_wkz_typ v = (v % 100 / 10 + v / 100 * 16) * 16 + v % 10

-- `AsciiToGeotecWkzTyp` behind strtol, on the 32-bit pattern of its result
unfoldable pub ascii_to_geotec_wkz_typ : ℕ → ℕ
unfolding int_to_geotec_wkz_typ
ascii_to_geotec_wkz_typ e =
    if ltb ((e + 2 ^ 32 - 0xb) % 2 ^ 32) 0x3dd then int_to_geotec_wkz_typ e else 0

-- The parts of a tool type, and the answer of `WerkzeugTyp`
pub record WkzTyp : Type 0 where
  pub main : ℕ
  pub sub : ℕ
  pub var : ℕ
  pub answer : ℕ

-- `WerkzeugTyp` of the field at 0xd8, not negative; `none` is a null tool.
unfoldable pub werkzeug_typ : Option ℕ → WkzTyp
werkzeug_typ none = record { main = 0; sub = 0; var = 0; answer = 0 }
werkzeug_typ (some field) =
    let hi = field / 256 in
    let mid = field % 256 / 16 in
    record { main = hi; sub = mid; var = field % 16; answer = if hi == 0 then mid else hi }

-- `2u < var - 5u`
abbrev not_5_to_7 : ℕ → Bool
not_5_to_7 var = ltb 2 ((var + 2 ^ 32 - 5) % 2 ^ 32)

-- The label `joined`: `var & 0xfffffffd` is `var` without its bit 1.
abbrev joined : ℕ → ℕ → Bool
joined sub var = if ltb sub 2 then not (var == 5 || var == 7) else true

abbrev minus : ℕ → ℕ → ℕ
minus a b = (a + 2 ^ 32 - b) % 2 ^ 32

-- The main type 6: the bits of 0x6d are the sub types 1, 3, 4, 6 and 7.
abbrev in_6d : ℕ → Bool
in_6d sub = sub == 1 || (sub == 3 || (sub == 4 || (sub == 6 || sub == 7)))

-- The switch of `WZ_IsAussenWkz` on a sub type and a variant below 16
unfoldable pub aussen_of : ℕ → ℕ → ℕ → Bool
aussen_of main sub var =
    if main == 1
    then (if ltb 2 sub
        then joined (minus sub 4) var
        else if ltb 0 sub
        then not_5_to_7 var
        else true)
    else if main == 2
    then (if sub == 1 then not_5_to_7 var else joined (minus sub 6) var)
    else if main == 3
    then ltb 6 (minus sub 1) || not (var == 6)
    else if main == 4
    then (if ltb sub 5 then ltb sub 2 || not (var == 6) else ltb 2 (minus sub 7) || not (var == 6))
    else if main == 5
    then (if ltb sub 3 then ltb sub 1 || not (var == 6) else not (sub == 6) || not (var == 6))
    else if main == 6
    then (if ltb (minus sub 1) 7 then not (in_6d sub) || not (var == 6) else true)
    else true

-- `WZ_IsAussenWkz`
unfoldable pub wz_is_aussen_wkz : Option ℕ → Bool
unfolding werkzeug_typ aussen_of
wz_is_aussen_wkz tool = let t = werkzeug_typ tool in aussen_of t.main t.sub t.var

-- On numbers below 2^29 and codes below 2^30 (no int overflows): the number of a number's Geotec
-- code is the number, and a code of which the two low hexadecimal digits are decimal is the code
-- of its number.
pub geotec-round_trip :
    (v code : ℕ)
    → v < 2 ^ 29
    → code < 2 ^ 30
    → code % 16 < 10
    → code % 256 / 16 < 10
    → (geotec_to_int_wkz_typ (int_to_geotec_wkz_typ v) ≡ v)
      × (int_to_geotec_wkz_typ (geotec_to_int_wkz_typ code) ≡ code)
unfolding geotec_to_int_wkz_typ int_to_geotec_wkz_typ
geotec-round_trip v code v_fits code_fits low mid = (omega arith, omega arith)
