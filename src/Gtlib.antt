-- ===== src/Gtlib.antt =====
-- The leaf classifiers of recomp/gtlib: an element is the fields that they read, `none` the null
-- pointer; an unsigned answer has the bits that the register keeps, a double is its 64-bit pattern.
pub mod Tables
mod Tests
use tnc640unix.Base.{
  ℕ, ◌+◌, ◌-◌, ◌/◌, ◌%◌, ◌^◌, Bool, true, false, ◌&&◌, ◌||◌, not, Option, none, some, if◌then◌else◌,
  ◌==◌, ltb, leb, bit_and, bit_or,
}

-- The fields at 0x54, 0xc, 0x58, 0x5c and 0xb0
pub record Geotec : Type 0 where
  pub tag : ℕ
  pub next : ℕ
  pub def_flags : ℕ
  pub flags : ℕ
  pub radius : ℕ

abbrev has_tag : ℕ → Option Geotec → Bool
has_tag t none = false
has_tag t (some p) = p.tag == t

unfoldable pub gtf_isbohrung : Option Geotec → Bool
gtf_isbohrung p = has_tag 0x15 p

unfoldable pub gtf_isfasrun : Option Geotec → Bool
gtf_isfasrun p = has_tag 8 p

unfoldable pub gtf_isfreistich : Option Geotec → Bool
gtf_isfreistich p = has_tag 10 p

unfoldable pub gtf_iseinstich : Option Geotec → Bool
gtf_iseinstich p = has_tag 9 p

unfoldable pub gtf_isgewinde : Option Geotec → Bool
gtf_isgewinde p = has_tag 4 p

abbrev pub flag : Bool → ℕ
flag b = if b then 1 else 0

-- `(e & 0xFFFFFF00u) | b`
abbrev pub leaked : ℕ → Bool → ℕ
leaked e b = bit_or (bit_and e 0xffffff00) (flag b)

-- `(char)u != 0`
abbrev pub holds : ℕ → Bool
holds u = not (u % 256 == 0)

-- `v` is the 32-bit pattern of an int.
unfoldable pub gtf_isvariante : Option Geotec → ℕ → ℕ
gtf_isvariante none v = 0
gtf_isvariante (some p) v = leaked v (p.tag == v)

unfoldable pub gtf_isfigurrucksack : Option Geotec → ℕ
gtf_isfigurrucksack none = 0
gtf_isfigurrucksack (some p) =
    if ltb 0x13 p.tag then 0 else leaked (2 ^ p.tag) (not (bit_and (2 ^ p.tag) 0xd2800 == 0))

-- `(w >> k) & 1u`
abbrev bit_of : ℕ → ℕ → ℕ
bit_of w k = w / 2 ^ k % 2

-- `u` of `gtf_isvariante(p, 1)`, or where it holds what `read` gives
abbrev gated : (Geotec → ℕ) → Option Geotec → ℕ
gated read none = 0
gated read (some p) = let u = gtf_isvariante (some p) 1 in if holds u then read p else u

unfoldable pub gtf_ispkt : Option Geotec → ℕ
unfolding gtf_isvariante
gtf_ispkt p = gated (λ q. bit_of q.flags 4) p

unfoldable pub gtf_istanziel : Option Geotec → ℕ
unfolding gtf_isvariante
gtf_istanziel p = gated (λ q. if q.next == 0 then 0 else bit_of q.flags 0xc) p

unfoldable pub gtf_isdeftanziel : Option Geotec → ℕ
unfolding gtf_isvariante
gtf_isdeftanziel p = gated (λ q. bit_of q.def_flags 0xc) p

unfoldable pub gtf_isueberlagerung : Option Geotec → Bool
unfolding gtf_isfasrun gtf_isfreistich gtf_iseinstich gtf_isbohrung
gtf_isueberlagerung p =
    if not (gtf_isfasrun p) && (not (gtf_isfreistich p) && not (gtf_iseinstich p))
    then gtf_isbohrung p
    else true

unfoldable pub gtf_iscirc : Option Geotec → ℕ
unfolding gtf_isvariante
gtf_iscirc p = gated (λ q. bit_of q.flags 6) p

unfoldable pub gtf_isdefcir : Option Geotec → ℕ
unfolding gtf_isvariante
gtf_isdefcir p = gated (λ q. bit_of q.def_flags 6) p

-- A double that is not zero and not a NaN, and its sign
abbrev pub magnitude : ℕ → ℕ
magnitude d = d % 2 ^ 63

abbrev pub is_ordered : ℕ → Bool
is_ordered d = not (magnitude d == 0) && leb (magnitude d) 0x7ff0000000000000

abbrev below_zero : ℕ → Bool
below_zero d = leb (2 ^ 63) d && is_ordered d

abbrev above_zero : ℕ → Bool
above_zero d = ltb d (2 ^ 63) && is_ordered d

abbrev radius_of : Option Geotec → ℕ
radius_of none = 0
radius_of (some p) = p.radius

unfoldable pub gtf_iscircw : Option Geotec → Bool
unfolding gtf_iscirc
gtf_iscircw p = if holds (gtf_iscirc p) then below_zero (radius_of p) else false

unfoldable pub gtf_iscirccw : Option Geotec → Bool
unfolding gtf_iscirc
gtf_iscirccw p = if holds (gtf_iscirc p) then above_zero (radius_of p) else false

-- The plane types; `p - 0xdu` wraps around.
unfoldable pub gtf_isyebene : ℕ → Bool
gtf_isyebene p = if ltb p 6 then ltb 3 p else ltb ((p + (2 ^ 32 - 0xd)) % 2 ^ 32) 2

unfoldable pub gtf_ismantel : ℕ → ℕ
gtf_ismantel p = if ltb 0xd p then 0 else leaked (2 ^ p) (not (bit_and (2 ^ p) 0x3028 == 0))
