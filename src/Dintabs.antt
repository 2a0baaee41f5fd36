-- ===== src/Dintabs.antt =====
-- The table lookups of recomp/dintabs: a double is its 64-bit pattern, and an entry that a function
-- returns a pointer to is its index. The arithmetic on doubles is the processor's: a parameter.
pub mod Reliefs
pub mod Diameters
pub mod Scans
pub mod Ascents
mod Tests
use tnc640unix.Base.{
  ℕ, zero, suc, ◌+◌, ◌-◌, ◌%◌, ◌^◌, Bool, true, false, ◌&&◌, not, Option, none, some, List, [], ◌∷◌,
  if◌then◌else◌, ◌==◌, ltb, leb, length, get_elem?, get_or,
}
pub use tnc640unix.Base.{is_number, rank, double_leb, double_ltb, fabs, Arithmetic}
use tnc640unix.Dintabs.Reliefs.{frei_g_werte, frei_ef_werte, frei_cd_werte, frei_ab_werte}
use tnc640unix.Dintabs.Diameters.{
  nenn_din259, nenn_npsf, nenn_npsc, nenn_nptf, nenn_npt, nenn_unef, nenn_unf, nenn_unc, nenn_din11,
  nenn_din2999,
}

-- `DAT_freistich_tol` and `DAT_nenndtbl_eps`: 0.001 and 0.05
abbrev freistich_tol : ℕ
freistich_tol = 0x3f50624dd2f1a9fc

abbrev nenndtbl_eps : ℕ
nenndtbl_eps = 0x3fa999999999999a

-- `for (i = n - 1; i >= 0; i--) if (p(i)) return i;`
unfoldable pub scan_down : (ℕ → Bool) → ℕ → Option ℕ
scan_down p zero = none
scan_down p (suc n) = if p n then some n else scan_down p n

-- `n` turns of `for (i = from; ; i++) if (p(i)) return i;`
unfoldable pub scan_up : (ℕ → Bool) → ℕ → ℕ → Option ℕ
scan_up p from zero = none
scan_up p from (suc n) = let rest = scan_up p (suc from) n in if p from then some from else rest

-- The double in a column of a row
abbrev pub cell : List (List ℕ) → ℕ → ℕ → ℕ
cell rows i k = get_or (get_or rows i []) k 0

abbrev near : Arithmetic → ℕ → List (List ℕ) → ℕ → ℕ → Bool
near a x rows k i = double_ltb (fabs (a.minus x (cell rows i k))) freistich_tol

unfoldable pub hole_din_werte_freistich_ab : Arithmetic → ℕ → Option ℕ
unfolding scan_up
hole_din_werte_freistich_ab a x = scan_up (near a x frei_ab_werte 1) 0 4

unfoldable pub hole_din_werte_freistich_cd : Arithmetic → ℕ → Option ℕ
unfolding scan_up
hole_din_werte_freistich_cd a x = scan_up (near a x frei_cd_werte 4) 0 3

abbrev pub reaches : ℕ → List (List ℕ) → ℕ → Bool
reaches x rows i = double_leb (cell rows i 0) x

unfoldable pub hole_din_werte_freistich_ef : ℕ → Option ℕ
unfolding scan_down
hole_din_werte_freistich_ef x = scan_down (reaches x frei_ef_werte) 6

unfoldable pub hole_din_werte_freistich_g : ℕ → Option ℕ
unfolding scan_down
hole_din_werte_freistich_g x = scan_down (reaches x frei_g_werte) 25

-- The table of a thread type
abbrev pub nenn_table : ℕ → Option (List ℕ)
nenn_table type =
    if type == 0x09
    then some nenn_din11
    else if type == 0x0a
    then some nenn_din2999
    else if type == 0x0b
    then some nenn_din259
    else if type == 0x0d
    then some nenn_unc
    else if type == 0x0e
    then some nenn_unf
    else if type == 0x0f
    then some nenn_unef
    else if type == 0x10
    then some nenn_npt
    else if type == 0x11
    then some nenn_nptf
    else if type == 0x12
    then some nenn_npsc
    else if type == 0x13
    then some nenn_npsf
    else none

abbrev pub entry : Option (List ℕ) → ℕ → Option ℕ
entry none i = some 0
entry (some t) i = get_elem? t i

-- `GetNennd`; `none` is a read behind the end of the table.
unfoldable pub get_nennd : ℕ → ℕ → Option ℕ
get_nennd type i = entry (nenn_table type) i

-- `!(cur - (delta + delta) < tol + DAT_nenndtbl_eps)` at the index `i`
abbrev pub stops : Arithmetic → ℕ → ℕ → ℕ → List ℕ → List ℕ → ℕ → Bool
stops a tol p factor tbl cmp i =
    let delta = a.times (a.over (get_or cmp i 0) p) factor in
    not (double_ltb (a.minus (get_or tbl i 0) (a.plus delta delta)) (a.plus tol nenndtbl_eps))

-- The loop of `NenndTblVgl` from the index `i` on, with `left` entries: the index of its answer
unfoldable pub vgl_from : (ℕ → Bool) → ℕ → ℕ → ℕ
vgl_from stop i zero = i - 1
vgl_from stop i (suc left) = let rest = vgl_from stop (suc i) left in if stop i then i - 1 else rest

-- The pitch that counts
abbrev pub effective : ℕ → ℕ
effective pitch = if fabs pitch == 0 then 0x3ff0000000000000 else pitch

-- `NenndTblVgl` of `n` entries; the double 1 is 0x3ff0000000000000, and a pitch of either zero counts
-- as 1.
unfoldable pub nennd_tbl_vgl : Arithmetic → ℕ → ℕ → ℕ → ℕ → List ℕ → List ℕ → ℕ
unfolding vgl_from
nennd_tbl_vgl a tol pitch factor n tbl cmp =
    get_or tbl (vgl_from (stops a tol (effective pitch) factor tbl cmp) 0 n) 0
