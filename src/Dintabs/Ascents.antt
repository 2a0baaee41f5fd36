-- ===== src/Dintabs/Ascents.antt =====
-- The nominal diameters of a thread system ascend, and NenndTblVgl answers an entry of its table.
use tnc640unix.Base.{
  ℕ, zero, suc, ◌+◌, ◌-◌, ◌<◌, ◌≤◌, ◌≡◌, ◌≢◌, refl, subst, inl, inr, Bool, true, false, ◌&&◌, ◌||◌,
  Option, none, some, List, [], ◌∷◌, arith, if◌then◌else◌, ◌==◌, Bool-cases, ltb, all_below-lem,
  get_elem?, get_or,
}
use tnc640unix.Dintabs.{
  Arithmetic, double_leb, nenn_table, entry, get_nennd, vgl_from, stops, nennd_tbl_vgl, effective,
}
use tnc640unix.Dintabs.Scans.{double_leb_trans}

-- Every entry is at most the next one.
abbrev ascending : List ℕ → Bool
ascending [] = true
ascending (x ∷ []) = true
ascending (x ∷ y ∷ t) = double_leb x y && ascending (y ∷ t)

pair :
    (x y : ℕ) (t : List ℕ)
    → ascending (x ∷ y ∷ t) ≡ true
    → (double_leb x y ≡ true) × (ascending (y ∷ t) ≡ true)
pair x y t h = elim (Bool-cases (double_leb x y)) [
  | inl le ↦ (le, subst (λ b. (b && ascending (y ∷ t)) ≡ true) le h)
  | inr gt ↦ absurd (false-ne (subst (λ b. (b && ascending (y ∷ t)) ≡ true) gt h))
]
  where
    false-ne : false ≢ true
    false-ne e = cc

some_inj : {x y : ℕ} → some x ≡ some y → x ≡ y
some_inj e = cc

from_head :
    (x : ℕ) (t : List ℕ) (j b : ℕ)
    → ascending (x ∷ t) ≡ true
    → get_elem? t j ≡ some b
    → double_leb x b ≡ true
from_head x [] j b h at = cc
from_head x (y ∷ t) zero b h at = subst (λ v. double_leb x v ≡ true) (some_inj at) (pair x y t h).0
from_head x (y ∷ t) (suc j) b h at =
    let (le, more) = pair x y t h in double_leb_trans x y b le (from_head y t j b more at)

pairwise :
    (t : List ℕ) (i j a b : ℕ)
    → ascending t ≡ true
    → i < j
    → get_elem? t i ≡ some a
    → get_elem? t j ≡ some b
    → double_leb a b ≡ true
pairwise [] i j a b h lt at bt = cc
pairwise (x ∷ t) i zero a b h lt at bt = absurd (omega arith)
pairwise (x ∷ t) zero (suc j) a b h lt at bt =
    subst (λ v. double_leb v b ≡ true) (some_inj at) (from_head x t j b h bt)
pairwise (x ∷ y ∷ t) (suc i) (suc j) a b h lt at bt =
    pairwise (y ∷ t) i j a b (pair x y t h).1 (omega arith) at bt
pairwise (x ∷ []) (suc i) (suc j) a b h lt at bt = cc

-- The check of a thread type's table, of all types but NPSC
abbrev checked : ℕ → Bool
checked type = type == 0x12 || elim (nenn_table type) [ none ↦ true | some t ↦ ascending t ]

table-ascending :
    (type : ℕ) (t : List ℕ) → type ≢ 0x12 → nenn_table type ≡ some t → ascending t ≡ true
table-ascending type t ne e = elim (Bool-cases (ltb type 0x14)) [
  | inl low ↦
      let check = all_below-lem 0x14 type checked refl (ground arith) in
      let other : (type == 0x12) ≡ false = ground (arith, ne) in
      subst (λ o. elim o [ none ↦ true | some u ↦ ascending u ] ≡ true) e
        (subst (λ c. (c || elim (nenn_table type) [ none ↦ true | some u ↦ ascending u ]) ≡ true)
          other check)
  | inr high ↦ let missing : nenn_table type ≡ none = ground arith in cc
]

entries :
    (o : Option (List ℕ)) (i j a b : ℕ)
    → ((t : List ℕ) → o ≡ some t → ascending t ≡ true)
    → i < j
    → entry o i ≡ some a
    → entry o j ≡ some b
    → double_leb a b ≡ true
entries none i j a b h lt at bt =
    subst (λ v. double_leb v b ≡ true) (some_inj at)
      (subst (λ v. double_leb 0 v ≡ true) (some_inj bt) refl)
entries (some t) i j a b h lt at bt = pairwise t i j a b (h t refl) lt at bt

-- The nominal diameters that GetNennd gives for the indices of a thread type do not fall, for every
-- type but NPSC (0x12); a type without a table gives 0 for each.
pub get_nennd-ascends :
    (type i j a b : ℕ)
    → type ≢ 0x12
    → i < j
    → get_nennd type i ≡ some a
    → get_nennd type j ≡ some b
    → double_leb a b ≡ true
unfolding get_nennd
get_nennd-ascends type i j a b ne lt at bt =
    entries (nenn_table type) i j a b (λ t. table-ascending type t ne) lt at bt

vgl_from-le : (stop : ℕ → Bool) (i left : ℕ) → vgl_from stop i left ≤ (i + left) - 1
unfolding vgl_from
vgl_from-le stop i zero = omega arith
vgl_from-le stop i (suc left) = elim (Bool-cases (stop i)) [
  | inl stopped ↦ rw stopped (omega arith)
  | inr on ↦ rw on (omega (arith, vgl_from-le stop (suc i) left))
]

-- The loop never passes an index at which it should stop.
vgl_from_before :
    (stop : ℕ → Bool) (i left j : ℕ) → i ≤ j → j < vgl_from stop i left → stop j ≡ false
unfolding vgl_from
vgl_from_before stop i zero j le lt = absurd (omega arith)
vgl_from_before stop i (suc left) j le lt = elim (Bool-cases (stop i)) [
  | inl stopped ↦
      let short : j < i - 1 =
        subst (λ b. j < (if b then i - 1 else vgl_from stop (suc i) left)) stopped lt in
      absurd (omega arith)
  | inr on ↦
      let further : j < vgl_from stop (suc i) left =
        subst (λ b. j < (if b then i - 1 else vgl_from stop (suc i) left)) on lt in
      elim (Bool-cases (i == j)) [
        | inl here ↦ subst (λ k. stop k ≡ false) (eq here) on
        | inr behind ↦ vgl_from_before stop (suc i) left j (ground arith) further
      ]
]
  where
    eq : (i == j) ≡ true → i ≡ j
    eq e = ground arith

-- NenndTblVgl computes no diameter: whatever the arithmetic on doubles does, it answers an entry of
-- its table, at an index within it, and none of the entries before that one ends the comparison.
pub nennd_tbl_vgl-entry :
    (a : Arithmetic) (tol pitch factor n : ℕ) (tbl cmp : List ℕ)
    → (k : ℕ) × (k ≤ n - 1)
      × (nennd_tbl_vgl a tol pitch factor n tbl cmp ≡ get_or tbl k 0)
      × ((j : ℕ) → j < k → stops a tol (effective pitch) factor tbl cmp j ≡ false)
unfolding nennd_tbl_vgl
nennd_tbl_vgl-entry a tol pitch factor n tbl cmp =
    let stop = stops a tol (effective pitch) factor tbl cmp in
    (
      vgl_from stop 0 n,
      omega (arith, vgl_from-le stop 0 n),
      refl,
      λ j. vgl_from_before stop 0 n j (omega arith),
    )
