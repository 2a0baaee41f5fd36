-- ===== src/Dintabs/Tests.antt =====
-- The lookups at the diameter 2, and the comparison with an arithmetic that keeps its first operand.
use tnc640unix.Base.{◌≡◌, refl, some}
use tnc640unix.Dintabs.Reliefs.{frei_g_werte, frei_ef_werte}
use tnc640unix.Dintabs.{
  Arithmetic, reaches, hole_din_werte_freistich_ef, hole_din_werte_freistich_g, scan_down,
}
use tnc640unix.Dintabs.Scans.{count_below, last_of, freistich_row}

freistich_row_example :
    (hole_din_werte_freistich_ef 0x4000000000000000
      ≡ last_of (count_below (reaches 0x4000000000000000 frei_ef_werte) 6))
    × (hole_din_werte_freistich_g 0x4000000000000000
        ≡ last_of (count_below (reaches 0x4000000000000000 frei_g_werte) 25))
freistich_row_example = freistich_row 0x4000000000000000

-- Between 1.6 and 3, and at 2
rows_of_two :
    (hole_din_werte_freistich_ef 0x4000000000000000 ≡ some 1)
    × (hole_din_werte_freistich_g 0x4000000000000000 ≡ some 16)
unfolding hole_din_werte_freistich_ef hole_din_werte_freistich_g scan_down
rows_of_two = (refl, refl)

abbrev keeps : Arithmetic
keeps = record { plus = λ x y. x; minus = λ x y. x; times = λ x y. x; over = λ x y. x }
