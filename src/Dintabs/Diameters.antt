-- ===== src/Dintabs/Diameters.antt =====
-- The nominal diameters of the thread systems in libEp90_Dintabs; a double is its 64-bit pattern.
use tnc640unix.Base.{ℕ, List, [], ◌∷◌}

-- `NennDIN259`
abbrev pub nenn_din259 : List ℕ
nenn_din259 =
    0x402374bc6a7ef9db ∷ 0x402a50624dd2f1aa ∷ 0x4030a978d4fdf3b6 ∷ 0x4034f47ae147ae14
    ∷ 0x4036e9374bc6a7f0 ∷ 0x403a70e560418937 ∷ 0x403e3374bc6a7efa ∷ 0x40409fdf3b645a1d
    ∷ 0x4042f2d0e5604189 ∷ 0x4044f47ae147ae14 ∷ 0x4046295810624dd3 ∷ 0x4047e6c8b4395810
    ∷ 0x404adf7ced916873 ∷ 0x404dce978d4fdf3b ∷ 0x40506d70a3d70a3d ∷ 0x4052cbc6a7ef9db2
    ∷ 0x4054622d0e560419 ∷ 0x4055f89374bc6a7f ∷ 0x40577eb851eb851f ∷ 0x4059151eb851eb85
    ∷ 0x405aab851eb851ec ∷ 0x405c41eb851eb852 ∷ 0x405f6eb851eb851f ∷ 0x40614dc28f5c28f6
    ∷ 0x4062e428f5c28f5c ∷ 0x40647a8f5c28f5c3 ∷ []

-- `NennNPSF`
abbrev pub nenn_npsf : List ℕ
nenn_npsf =
    0x401fc083126e978d ∷ 0x402492f1a9fbe76d ∷ 0x402b6e978d4fdf3b ∷ 0x4031251eb851eb85
    ∷ 0x40355604189374bc ∷ 0x403aab851eb851ec ∷ 0x4040b353f7ced917 ∷ []

-- `NennNPSC`
abbrev pub nenn_npsc : List ℕ
nenn_npsc =
    0x402492f1a9fbe76d ∷ 0x402b6e978d4fdf3b ∷ 0x4031251eb851eb85 ∷ 0x40355604189374bc
    ∷ 0x403aab851eb851ec ∷ 0x4040b353f7ced917 ∷ 0x404514fdf3b645a2 ∷ 0x40482147ae147ae1
    ∷ 0x404e29999999999a ∷ 0x405241999999999a ∷ 0x405639999999999a ∷ 0x4059400000000000
    ∷ 0x4082c00000000000 ∷ 0x405c933333333333 ∷ []

-- `NennNPTF`
abbrev pub nenn_nptf : List ℕ
nenn_nptf =
    0x401fc083126e978d ∷ 0x402492f1a9fbe76d ∷ 0x402b6e978d4fdf3b ∷ 0x4031251eb851eb85
    ∷ 0x40355604189374bc ∷ 0x403aab851eb851ec ∷ 0x4040b353f7ced917 ∷ 0x404514fdf3b645a2
    ∷ 0x40482147ae147ae1 ∷ 0x404e29999999999a ∷ 0x405241999999999a ∷ 0x405639999999999a ∷ []

-- `NennNPT`
abbrev pub nenn_npt : List ℕ
nenn_npt =
    0x401fc083126e978d ∷ 0x402492f1a9fbe76d ∷ 0x402b6e978d4fdf3b ∷ 0x4031251eb851eb85
    ∷ 0x40355604189374bc ∷ 0x403aab851eb851ec ∷ 0x4040b353f7ced917 ∷ 0x404514fdf3b645a2
    ∷ 0x40482147ae147ae1 ∷ 0x404e29999999999a ∷ 0x405241999999999a ∷ 0x405639999999999a
    ∷ 0x4059666666666666 ∷ 0x405c933333333333 ∷ 0x4061a9999999999a ∷ 0x406508cccccccccd
    ∷ 0x406b626666666666 ∷ 0x407110cccccccccd ∷ 0x40743d999999999a ∷ 0x407639999999999a
    ∷ 0x4079666666666666 ∷ 0x407c933333333333 ∷ 0x407fc00000000000 ∷ 0x40830ccccccccccd ∷ []

-- `NennUNEF`
abbrev pub nenn_unef : List ℕ
nenn_unef =
    0x4015f212d77318fc ∷ 0x4019666666666666 ∷ 0x401fc00000000000 ∷ 0x40230ccccccccccd
    ∷ 0x402639999999999a ∷ 0x4029666666666666 ∷ 0x402c933333333333 ∷ 0x402fc00000000000
    ∷ 0x4031766666666666 ∷ 0x40330ccccccccccd ∷ 0x4034a33333333333 ∷ 0x403639999999999a
    ∷ 0x4037d00000000000 ∷ 0x4039666666666666 ∷ 0x403afccccccccccd ∷ 0x403c933333333333
    ∷ 0x403e29999999999a ∷ 0x403fc00000000000 ∷ 0x4040ab3333333333 ∷ 0x4041766666666666
    ∷ 0x404241999999999a ∷ 0x40430ccccccccccd ∷ 0x4043d80000000000 ∷ 0x4044a33333333333
    ∷ 0x40456e6666666666 ∷ 0x404639999999999a ∷ 0x4049666666666666 ∷ []

-- `NennUNF`
abbrev pub nenn_unf : List ℕ
nenn_unf =
    0x3ff8624dd2f1a9fc ∷ 0x3ffdaacd9e83e426 ∷ 0x400179a6b50b0f28 ∷ 0x40041de69ad42c3d
    ∷ 0x4006c226809d4952 ∷ 0x4009666666666666 ∷ 0x400c0aa64c2f837b ∷ 0x4010a9930be0ded3
    ∷ 0x40134dd2f1a9fbe7 ∷ 0x4015f212d77318fc ∷ 0x4019666666666666 ∷ 0x401fc00000000000
    ∷ 0x40230ccccccccccd ∷ 0x402639999999999a ∷ 0x4029666666666666 ∷ 0x402c933333333333
    ∷ 0x402fc00000000000 ∷ 0x40330ccccccccccd ∷ 0x403639999999999a ∷ 0x4039666666666666
    ∷ 0x4039666666666666 ∷ 0x403c933333333333 ∷ 0x403fc00000000000 ∷ 0x4041766666666666
    ∷ 0x40430ccccccccccd ∷ []

-- `NennUNC`
abbrev pub nenn_unc : List ℕ
nenn_unc =
    0x3ffdaacd9e83e426 ∷ 0x400179a6b50b0f28 ∷ 0x40041de69ad42c3d ∷ 0x4006c226809d4952
    ∷ 0x4009666666666666 ∷ 0x400c0aa64c2f837b ∷ 0x4010a9930be0ded3 ∷ 0x40134dd2f1a9fbe7
    ∷ 0x4015f212d77318fc ∷ 0x4019666666666666 ∷ 0x401fc00000000000 ∷ 0x40230ccccccccccd
    ∷ 0x402639999999999a ∷ 0x4029666666666666 ∷ 0x402c933333333333 ∷ 0x402fc00000000000
    ∷ 0x40330ccccccccccd ∷ 0x403639999999999a ∷ 0x4039666666666666 ∷ 0x403c933333333333
    ∷ 0x403fc00000000000 ∷ 0x4041766666666666 ∷ 0x40430ccccccccccd ∷ 0x404639999999999a
    ∷ 0x4049666666666666 ∷ 0x404c933333333333 ∷ 0x404fc00000000000 ∷ 0x4051766666666666
    ∷ 0x40530ccccccccccd ∷ 0x4054a33333333333 ∷ 0x405639999999999a ∷ 0x4057d00000000000
    ∷ 0x4059666666666666 ∷ []

-- `NennDIN11`
abbrev pub nenn_din11 : List ℕ
nenn_din11 =
    0x4019666666666666 ∷ 0x401fc083126e978d ∷ 0x40230ccccccccccd ∷ 0x402639db22d0e560
    ∷ 0x4029666666666666 ∷ 0x402fc083126e978d ∷ 0x40330d0e56041893 ∷ 0x403639db22d0e560
    ∷ 0x403966a7ef9db22d ∷ 0x403c9374bc6a7efa ∷ 0x403fc04189374bc7 ∷ 0x404176872b020c4a
    ∷ 0x40430ced916872b0 ∷ 0x4044a374bc6a7efa ∷ 0x404639db22d0e560 ∷ 0x4047d04189374bc7
    ∷ 0x404966a7ef9db22d ∷ 0x404c9374bc6a7efa ∷ 0x404fc04189374bc7 ∷ 0x405176978d4fdf3b ∷ []

-- `NennDIN2999`
abbrev pub nenn_din2999 : List ℕ
nenn_din2999 =
    0x401ee45a1cac0831 ∷ 0x402374bc6a7ef9db ∷ 0x402a50624dd2f1aa ∷ 0x4030a978d4fdf3b6
    ∷ 0x4034f47ae147ae14 ∷ 0x403a70e560418937 ∷ 0x40409fdf3b645a1d ∷ 0x4044f47ae147ae14
    ∷ 0x4047e6c8b4395810 ∷ 0x404dce978d4fdf3b ∷ 0x4052cbc6a7ef9db2 ∷ 0x4055f89374bc6a7f
    ∷ 0x405c41eb851eb852 ∷ 0x40614dc28f5c28f6 ∷ 0x40647a8f5c28f5c3 ∷ []
