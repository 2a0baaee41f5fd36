-- ===== src/Errplib.antt =====
-- The error classifiers of libEp90_Errplib: an int is its 32-bit pattern, a byte a number, a bool a
-- Bool, an unsigned its number.
use tnc640unix.Base.{
  ℕ, ◌+◌, ◌-◌, ◌*◌, ◌/◌, ◌%◌, ◌^◌, Bool, ◌&&◌, not, List, [], ◌∷◌, false, if◌then◌else◌, ◌==◌, ltb,
  leb, get_or,
}

-- `ERR_IsSystemWarning`, `ERR_IsInternWarning`, `ERR_IsExternWarning` and `ERR_IsUserWarning`
unfoldable pub is_system_warning : ℕ → Bool
is_system_warning cls = cls == 2

unfoldable pub is_intern_warning : ℕ → ℕ → Bool
is_intern_warning cls flag = cls == 1 && not (flag % 256 == 0)

unfoldable pub is_extern_warning : ℕ → ℕ → Bool
is_extern_warning cls flag = cls == 1 && flag % 256 == 0

unfoldable pub is_user_warning : ℕ → Bool
is_user_warning cls = cls == 1

-- `(e & 0xFFFFFF00) | (e <= 1)`
abbrev leaked : ℕ → ℕ
leaked e = e / 256 * 256 + (if leb e 1 then 1 else 0)

-- `ERR_IsWarning`
unfoldable pub is_warning : ℕ → ℕ
is_warning cls = leaked ((cls + 2 ^ 32 - 1) % 2 ^ 32)

-- `ERR_IsSystemError`, `ERR_IsInternError`, `ERR_IsExternError` and `ERR_IsUserError`
unfoldable pub is_system_error : ℕ → Bool
is_system_error cls = cls == 4

unfoldable pub is_intern_error : ℕ → ℕ → Bool
is_intern_error cls flag = cls == 3 && not (flag % 256 == 0)

unfoldable pub is_extern_error : ℕ → ℕ → Bool
is_extern_error cls flag = cls == 3 && flag % 256 == 0

unfoldable pub is_user_error : ℕ → Bool
is_user_error cls = cls == 3

-- `ERR_IsError`
unfoldable pub is_error : ℕ → ℕ
is_error cls = leaked ((cls + 2 ^ 32 - 3) % 2 ^ 32)

-- `errplib_facility_table`
abbrev pub facility_table : List ℕ
facility_table =
    0x060c0000 ∷ 0 ∷ 0 ∷ 0 ∷ 0 ∷ 0 ∷ 0 ∷ 0 ∷ 0 ∷ 0x06050000 ∷ 0 ∷ 0x06520000 ∷ 0 ∷ 0 ∷ 0 ∷ 0 ∷ 0 ∷ 0
    ∷ 0 ∷ 0 ∷ 0 ∷ 0 ∷ 0 ∷ 0 ∷ 0 ∷ 0 ∷ 0 ∷ 0 ∷ 0 ∷ 0 ∷ 0 ∷ 0 ∷ 0 ∷ 0 ∷ 0 ∷ 0 ∷ 0 ∷ 0 ∷ 0 ∷ 0 ∷ 0 ∷ 0
    ∷ 0 ∷ 0 ∷ 0 ∷ 0 ∷ 0x06500000 ∷ 0x06000000 ∷ 0x060a0000 ∷ 0x06020000 ∷ 0x060b0000 ∷ 0x06010000
    ∷ 0x06070000 ∷ 0x06080000 ∷ 0x060f0000 ∷ 0x06100000 ∷ 0x06060000 ∷ 0x06030000 ∷ 0x06090000
    ∷ 0x06040000 ∷ 0x06210000 ∷ 0x06150000 ∷ 0 ∷ 0x06550000 ∷ 0x06560000 ∷ 0x060e0000 ∷ 0
    ∷ 0x06060000 ∷ 0x06060000 ∷ 0x06060000 ∷ 0x060d0000 ∷ 0x06120000 ∷ []

-- `ERRPLIB_GetFacilityID`
unfoldable pub get_facility_id : ℕ → ℕ
get_facility_id errnum =
    let idx = (errnum + 2 ^ 32 - 4) % 2 ^ 32 in
    if ltb 0x47 idx then 0 else get_or facility_table idx 0

-- `IsDPDemo`
unfoldable pub is_dp_demo : Bool
is_dp_demo = false
