-- ===== src/Tools/Tests.antt =====
-- The tool codes at a concrete tool type.
use tnc640unix.Base.{◌≡◌, refl, true, some}
use tnc640unix.Tools.{wz_is_aussen_wkz}

outer_tool : wz_is_aussen_wkz (some 0x214) ≡ true
unfolding wz_is_aussen_wkz
outer_tool = refl
