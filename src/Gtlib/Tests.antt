-- ===== src/Gtlib/Tests.antt =====
-- The leaf classifiers on an arc with the pattern of the double -2.
use tnc640unix.Base.{◌≡◌, some, arith}
use tnc640unix.Gtlib.{
  Geotec, holds, gtf_isfigurrucksack, gtf_isueberlagerung, gtf_isyebene, gtf_ismantel,
}
use tnc640unix.Gtlib.Tables.{one_of, figures, overlays, y_planes, mantle_planes, classes_lem}

abbrev arc : Geotec
arc = record { tag = 1; next = 0; def_flags = 0; flags = 64; radius = 0xc000000000000000 }

classes_lem_example :
    (holds (gtf_isfigurrucksack (some arc)) ≡ one_of figures 1)
    × (gtf_isueberlagerung (some arc) ≡ one_of overlays 1)
    × (gtf_isyebene 13 ≡ one_of y_planes 13)
    × (holds (gtf_ismantel 13) ≡ one_of mantle_planes 13)
classes_lem_example = classes_lem arc 13 (omega arith)
