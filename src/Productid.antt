-- ===== src/Productid.antt =====
-- The product predicates of libProductId: the file's static words are a record, an int is its
-- 32-bit pattern.
use tnc640unix.Base.{
  ℕ, ◌+◌, ◌-◌, ◌%◌, ◌^◌, Bool, ◌||◌, List, [], ◌∷◌, false, if◌then◌else◌, ◌==◌, ltb,
}

-- `s_info`, `s_ncExport`, `s_ncProgStation`, `s_ncVirtual` and `s_ncState`
pub record Product : Type 0 where
  pub info : ℕ
  pub nc_export : ℕ
  pub nc_prog_station : ℕ
  pub nc_virtual : ℕ
  pub nc_state : ℕ

abbrev pub loaded : Product
loaded = record { info = 0; nc_export = 0; nc_prog_station = 0; nc_virtual = 0; nc_state = 0 }

-- `SetControlMarkForTest`
unfoldable pub set_control_mark_for_test : ℕ → Product → Product
set_control_mark_for_test v p = record p { info = v }

unfoldable pub get_control_mark : Product → ℕ
get_control_mark p = p.info

unfoldable pub get_nc_state : Product → ℕ
get_nc_state p = p.nc_state

-- `IsTurningProduct` to `IsTNC7Generation`
unfoldable pub is_turning_product : Product → Bool
is_turning_product p = ltb ((p.info + 2 ^ 32 - 0xb) % 2 ^ 32) 2

unfoldable pub is_cnc_pilot_product : Product → Bool
is_cnc_pilot_product p = p.info == 0xc

unfoldable pub is_manual_plus_product : Product → Bool
is_manual_plus_product p = p.info == 0xb

unfoldable pub is_mill_turn_product : Product → Bool
is_mill_turn_product p = p.info == 0x10 || p.info == 0x16

unfoldable pub is_analog_product : Product → Bool
is_analog_product p = ltb ((p.info + 2 ^ 32 - 6) % 2 ^ 32) 3

-- The case labels of `IsTNC7Generation`
abbrev legacy : List ℕ
legacy = 0 ∷ 6 ∷ 7 ∷ 8 ∷ 0xb ∷ 0xc ∷ 0xe ∷ 0x10 ∷ 0x14 ∷ 0x1a ∷ 0x1b ∷ []

abbrev among : List ℕ → ℕ → Bool
among [] n = false
among (x ∷ xs) n = x == n || among xs n

unfoldable pub is_tnc7_generation : Product → ℕ
is_tnc7_generation p = if among legacy p.info then 0 else 1

unfoldable pub is_export_version : Product → ℕ
is_export_version p = p.nc_export

unfoldable pub is_prog_station_version : Product → ℕ
is_prog_station_version p = p.nc_prog_station

unfoldable pub is_virtual_machine : Product → ℕ
is_virtual_machine p = p.nc_virtual

-- `IsPhysicalMachine`, `IsVirtualMachine() ^ 1`: the low bit flipped
unfoldable pub is_physical_machine : Product → ℕ
unfolding is_virtual_machine
is_physical_machine p = let v = is_virtual_machine p in if v % 2 == 0 then v + 1 else v - 1
