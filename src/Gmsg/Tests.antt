-- ===== src/Gmsg/Tests.antt =====
-- The message that loads winmgr.
use tnc640unix.Base.{◌≡◌, false, none, some, [], arith, codes, word_of, drop}
use tnc640unix.Gmsg.{gm_build_fmloadprocess}
use tnc640unix.Gmsg.Parse.{read_attrs, process_attrs, fmloadprocess-round_trip}

fmloadprocess-round_trip_example :
    let m =
      gm_build_fmloadprocess false []
        (some (codes "winmgr"))
        none
        (some (codes "/tmp/b/winmgr.elf")) in
    (word_of m ≡ 0xc80161)
    × (read_attrs 7 (drop 4 m)
        ≡ some (
          process_attrs false (some (codes "winmgr")) none (some (codes "/tmp/b/winmgr.elf")),
          [],
        ))
fmloadprocess-round_trip_example =
    fmloadprocess-round_trip false (some (codes "winmgr")) none (some (codes "/tmp/b/winmgr.elf"))
      (omega arith) (omega arith) (omega arith)
