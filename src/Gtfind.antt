-- ===== src/Gtfind.antt =====
-- The element classifiers of recomp/gtlib2: a pointer is an address, 0 the null pointer; a heap
-- gives the node at each address. An int is its 32-bit pattern, an int answer 0 or 1 a Bool.
use tnc640unix.Base.{ℕ, ◌/◌, ◌%◌, ◌^◌, Bool, false, ◌&&◌, ◌||◌, not, if◌then◌else◌, ◌==◌}

-- `node`, without its padding
pub record Node : Type 0 where
  pub p16 : ℕ
  pub p20 : ℕ
  pub f28 : ℕ
  pub typ : ℕ
  pub flags : ℕ

abbrev pub Heap : Type 0
Heap = ℕ → Node

-- A test of the node that a pointer leads to, false for a null pointer
abbrev at : Heap → (Node → Bool) → ℕ → Bool
at h test p = if p == 0 then false else test (h p)

-- The test of the node behind two `p16` pointers, each guarded
abbrev third : Heap → (Node → Bool) → ℕ → Bool
third h test a = at h (λ n. at h (λ m. at h test m.p16) n.p16) a

abbrev has_typ : ℕ → Node → Bool
has_typ t n = n.typ == t

-- `GTFIND_IsAbflach`, `GTFIND_IsMehrkant`, `GTFIND_IsMuster` and `GTFIND_IsFigur`; 0xD2800 has the
-- bits 11, 13, 16, 18 and 19.
unfoldable pub is_abflach : Heap → ℕ → Bool
is_abflach h a = third h (has_typ 59) a

unfoldable pub is_mehrkant : Heap → ℕ → Bool
is_mehrkant h a = third h (has_typ 58) a

unfoldable pub is_muster : Heap → ℕ → Bool
is_muster h a = third h (has_typ 20) a

abbrev in_d2800 : Node → Bool
in_d2800 n = has_typ 11 n || has_typ 13 n || has_typ 16 n || has_typ 18 n || has_typ 19 n

unfoldable pub is_figur : Heap → ℕ → Bool
is_figur h a = third h in_d2800 a

-- `GTFIND_IsBohrung`
unfoldable pub is_bohrung : Heap → ℕ → Bool
is_bohrung h a = at h (λ n. at h (has_typ 21) n.p16) a

-- `GTFIND_IsRohr` and `GTFIND_IsStange`
abbrev rohr_or_stange : ℕ → Heap → ℕ → Bool
rohr_or_stange t h a =
    at h (λ n. if n.f28 == 36 || n.f28 == 6 then third h (has_typ t) a else false) a

unfoldable pub is_rohr : Heap → ℕ → Bool
is_rohr h a = rohr_or_stange 6 h a

unfoldable pub is_stange : Heap → ℕ → Bool
is_stange h a = rohr_or_stange 7 h a

-- `GTFIND_IsTasche`
unfoldable pub is_tasche : Heap → ℕ → Bool
unfolding is_figur is_abflach is_mehrkant
is_tasche h a =
    at h (λ n. at h (has_typ 1) n.p16 && not (n.p20 == 0)) a
    && (not (is_figur h a) && (not (is_abflach h a) && not (is_mehrkant h a)))

-- `GTFIND_IsRucksackTyp`
unfoldable pub is_rucksack_typ : Heap → ℕ → ℕ → Bool
is_rucksack_typ h g bv = at h (λ n. at h (has_typ bv) n.p16) g

-- A flag of a node whose type is 1
abbrev flag_of : ℕ → Heap → ℕ → Bool
flag_of k h g = at h (λ n. has_typ 1 n && n.flags / 2 ^ k % 2 == 1) g

-- `GTFIND_IsGeoKomplett`, `GTFIND_IsGeoError`, `GTFIND_IsLine` and `GTFIND_IsCirc`
unfoldable pub is_geo_komplett : Heap → ℕ → Bool
is_geo_komplett h g = flag_of 1 h g

unfoldable pub is_geo_error : Heap → ℕ → Bool
is_geo_error h g = flag_of 3 h g

unfoldable pub is_line : Heap → ℕ → Bool
is_line h g = flag_of 5 h g

unfoldable pub is_circ : Heap → ℕ → Bool
is_circ h g = flag_of 6 h g
