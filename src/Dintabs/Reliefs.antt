-- ===== src/Dintabs/Reliefs.antt =====
-- The tables of the thread reliefs in libEp90_Dintabs: a row is six doubles, a double its 64-bit
-- pattern.
use tnc640unix.Base.{ℕ, List, [], ◌∷◌}

-- `frei_g_werte`
abbrev pub frei_g_werte : List (List ℕ)
frei_g_werte =
    (0x0 ∷ 0x3fe6666666666666 ∷ 0xbfd3333333333333 ∷ 0x3ff3333333333333 ∷ 0x3fb999999999999a
      ∷ 0x3fb999999999999a ∷ [])
    ∷ (0x3fc999999999999a ∷ 0x3fe6666666666666 ∷ 0xbfd3333333333333 ∷ 0x3ff3333333333333
        ∷ 0x3fb999999999999a ∷ 0x3fb999999999999a ∷ [])
    ∷ (0x3fd0000000000000 ∷ 0x3feccccccccccccd ∷ 0xbfd999999999999a ∷ 0x3ff6666666666666
        ∷ 0x3fbeb851eb851eb8 ∷ 0x3fb999999999999a ∷ [])
    ∷ (0x3fd3333333333333 ∷ 0x3ff0cccccccccccd ∷ 0xbfe0000000000000 ∷ 0x3ff999999999999a
        ∷ 0x3fc47ae147ae147b ∷ 0x3fb999999999999a ∷ [])
    ∷ (0x3fd6666666666666 ∷ 0x3ff3333333333333 ∷ 0xbfe3333333333333 ∷ 0x3ffe666666666666
        ∷ 0x3fc47ae147ae147b ∷ 0x3fc999999999999a ∷ [])
    ∷ (0x3fd999999999999a ∷ 0x3ff6666666666666 ∷ 0xbfe6666666666666 ∷ 0x400199999999999a
        ∷ 0x3fc999999999999a ∷ 0x3fc999999999999a ∷ [])
    ∷ (0x3fdccccccccccccd ∷ 0x3ff999999999999a ∷ 0xbfe6666666666666 ∷ 0x4003333333333333
        ∷ 0x3fc999999999999a ∷ 0x3fc999999999999a ∷ [])
    ∷ (0x3fe0000000000000 ∷ 0x3ffc000000000000 ∷ 0xbfe999999999999a ∷ 0x400599999999999a
        ∷ 0x3fc999999999999a ∷ 0x3fd3333333333333 ∷ [])
    ∷ (0x3fe3333333333333 ∷ 0x4000cccccccccccd ∷ 0xbff0000000000000 ∷ 0x400a666666666666
        ∷ 0x3fd999999999999a ∷ 0x3fd3333333333333 ∷ [])
    ∷ (0x3fe6666666666666 ∷ 0x400399999999999a ∷ 0xbff199999999999a ∷ 0x400e666666666666
        ∷ 0x3fd999999999999a ∷ 0x3fd3333333333333 ∷ [])
    ∷ (0x3fe8000000000000 ∷ 0x4004cccccccccccd ∷ 0xbff3333333333333 ∷ 0x4010000000000000
        ∷ 0x3fd999999999999a ∷ 0x3fd3333333333333 ∷ [])
    ∷ (0x3fe999999999999a ∷ 0x4006666666666666 ∷ 0xbff4cccccccccccd ∷ 0x4010cccccccccccd
        ∷ 0x3fd999999999999a ∷ 0x3fd3333333333333 ∷ [])
    ∷ (0x3ff0000000000000 ∷ 0x400c000000000000 ∷ 0xbff999999999999a ∷ 0x4014cccccccccccd
        ∷ 0x3fe3333333333333 ∷ 0x3fe0000000000000 ∷ [])
    ∷ (0x3ff4000000000000 ∷ 0x401199999999999a ∷ 0xc000000000000000 ∷ 0x401acccccccccccd
        ∷ 0x3fe3333333333333 ∷ 0x3fe0000000000000 ∷ [])
    ∷ (0x3ff8000000000000 ∷ 0x4014cccccccccccd ∷ 0xc002666666666666 ∷ 0x401f333333333333
        ∷ 0x3fe999999999999a ∷ 0x3fe0000000000000 ∷ [])
    ∷ (0x3ffc000000000000 ∷ 0x4018666666666666 ∷ 0xc004cccccccccccd ∷ 0x4022333333333333
        ∷ 0x3ff0000000000000 ∷ 0x3fe0000000000000 ∷ [])
    ∷ (0x4000000000000000 ∷ 0x401c000000000000 ∷ 0xc008000000000000 ∷ 0x402499999999999a
        ∷ 0x3ff0000000000000 ∷ 0x3fe0000000000000 ∷ [])
    ∷ (0x4004000000000000 ∷ 0x4021666666666666 ∷ 0xc00ccccccccccccd ∷ 0x402a000000000000
        ∷ 0x3ff3333333333333 ∷ 0x3fe0000000000000 ∷ [])
    ∷ (0x4008000000000000 ∷ 0x4025000000000000 ∷ 0xc01199999999999a ∷ 0x402e666666666666
        ∷ 0x3ff999999999999a ∷ 0x3fe0000000000000 ∷ [])
    ∷ (0x400c000000000000 ∷ 0x4028000000000000 ∷ 0xc014000000000000 ∷ 0x4031b33333333333
        ∷ 0x3ff999999999999a ∷ 0x3fe0000000000000 ∷ [])
    ∷ (0x4010000000000000 ∷ 0x402c000000000000 ∷ 0xc016cccccccccccd ∷ 0x4034000000000000
        ∷ 0x4000000000000000 ∷ 0x3fe0000000000000 ∷ [])
    ∷ (0x4012000000000000 ∷ 0x4030000000000000 ∷ 0xc01999999999999a ∷ 0x4037000000000000
        ∷ 0x4000000000000000 ∷ 0x3fe0000000000000 ∷ [])
    ∷ (0x4014000000000000 ∷ 0x4031800000000000 ∷ 0xc01c000000000000 ∷ 0x403a000000000000
        ∷ 0x4004000000000000 ∷ 0x3fe0000000000000 ∷ [])
    ∷ (0x4016000000000000 ∷ 0x4033000000000000 ∷ 0xc01ecccccccccccd ∷ 0x403c000000000000
        ∷ 0x400999999999999a ∷ 0x3fe0000000000000 ∷ [])
    ∷ (0x4018000000000000 ∷ 0x4035000000000000 ∷ 0xc02099999999999a ∷ 0x403e000000000000
        ∷ 0x400999999999999a ∷ 0x3fe0000000000000 ∷ [])
    ∷ []

-- `frei_ef_werte`
abbrev pub frei_ef_werte : List (List ℕ)
frei_ef_werte =
    (0x0 ∷ 0x3fe0000000000000 ∷ 0x3fb999999999999a ∷ 0x3fb999999999999a ∷ 0x3fb999999999999a
      ∷ 0x402e000000000000 ∷ [])
    ∷ (0x3ff999999999999a ∷ 0x3ff0000000000000 ∷ 0x3fb999999999999a ∷ 0x3fb999999999999a
        ∷ 0x3fc999999999999a ∷ 0x402e000000000000 ∷ [])
    ∷ (0x4008000000000000 ∷ 0x4000000000000000 ∷ 0x3fc999999999999a ∷ 0x3fb999999999999a
        ∷ 0x3fd999999999999a ∷ 0x402e000000000000 ∷ [])
    ∷ (0x4024000000000000 ∷ 0x4000000000000000 ∷ 0x3fc999999999999a ∷ 0x3fb999999999999a
        ∷ 0x3fe3333333333333 ∷ 0x402e000000000000 ∷ [])
    ∷ (0x4032000000000000 ∷ 0x4004000000000000 ∷ 0x3fd3333333333333 ∷ 0x3fc999999999999a
        ∷ 0x3fe3333333333333 ∷ 0x402e000000000000 ∷ [])
    ∷ (0x4054000000000000 ∷ 0x4010000000000000 ∷ 0x3fd999999999999a ∷ 0x3fd3333333333333
        ∷ 0x3ff0000000000000 ∷ 0x402e000000000000 ∷ [])
    ∷ []

-- `frei_cd_werte`
abbrev pub frei_cd_werte : List (List ℕ)
frei_cd_werte =
    (0x0 ∷ 0x0 ∷ 0x3fc999999999999a ∷ 0x0 ∷ 0x3ff0000000000000 ∷ 0x0 ∷ [])
    ∷ (0x0 ∷ 0x0 ∷ 0x3fd3333333333333 ∷ 0x0 ∷ 0x3ff999999999999a ∷ 0x0 ∷ [])
    ∷ (0x0 ∷ 0x0 ∷ 0x3fd3333333333333 ∷ 0x0 ∷ 0x4004000000000000 ∷ 0x0 ∷ [])
    ∷ []

-- `frei_ab_werte`
abbrev pub frei_ab_werte : List (List ℕ)
frei_ab_werte =
    (0x0 ∷ 0x3ff0000000000000 ∷ 0x3fb999999999999a ∷ 0x0 ∷ 0x3fc999999999999a ∷ 0x403e000000000000
      ∷ [])
    ∷ (0x0 ∷ 0x4000000000000000 ∷ 0x3fc999999999999a ∷ 0x0 ∷ 0x3fd999999999999a ∷ 0x403e000000000000
        ∷ [])
    ∷ (0x0 ∷ 0x4010000000000000 ∷ 0x3fd3333333333333 ∷ 0x0 ∷ 0x3fe3333333333333 ∷ 0x403e000000000000
        ∷ [])
    ∷ (0x0 ∷ 0x4018000000000000 ∷ 0x3fd999999999999a ∷ 0x0 ∷ 0x3ff0000000000000 ∷ 0x403e000000000000
        ∷ [])
    ∷ []
