-- ===== src/Rtos/Table.antt =====
-- The scans `for(i=0;i<MAX;i++) if(p(t[i])) return i; return -1;` over the fixed tables of the
-- control segment. `none` is the -1.
pub mod Ids
use tnc640unix.Base.{
  ℕ, zero, suc, ◌<◌, ◌≡◌, refl, inl, inr, Bool, true, false, Option, none, some, List, [], ◌∷◌,
  arith, if◌then◌else◌, Bool-cases, get_elem?, set,
}

module _ {ℓ} {A : Type ℓ} where
  unfoldable pub find_slot : (A → Bool) → List A → Option ℕ
  find_slot p [] = none
  find_slot p (x ∷ xs) =
      if p x then some 0 else elim (find_slot p xs) [ none ↦ none | some i ↦ some (suc i) ]

  -- What a scan returns is a slot that passes the test.
  pub find_slot-some :
      (p : A → Bool) (xs : List A) (i : ℕ)
      → find_slot p xs ≡ some i
      → (x : A) × (get_elem? xs i ≡ some x) × (p x ≡ true)
  unfolding find_slot
  find_slot-some p [] i h = cc
  find_slot-some p (x ∷ xs) zero h = (x, refl, ground arith)
  find_slot-some p (x ∷ xs) (suc i) h = find_slot-some p xs i (ground arith)

  -- A scan that finds nothing has seen every slot fail.
  pub find_slot-none :
      (p : A → Bool) (xs : List A) (i : ℕ) (x : A)
      → find_slot p xs ≡ none
      → get_elem? xs i ≡ some x
      → p x ≡ false
  unfolding find_slot
  find_slot-none p [] i x h e = cc
  find_slot-none p (y ∷ xs) zero x h e = ground arith
  find_slot-none p (y ∷ xs) (suc i) x h e = find_slot-none p xs i x (ground arith) e

  -- It is the first such slot.
  pub find_slot-first :
      (p : A → Bool) (xs : List A) (i j : ℕ) (x : A)
      → find_slot p xs ≡ some i
      → j < i
      → get_elem? xs j ≡ some x
      → p x ≡ false
  unfolding find_slot
  find_slot-first p [] i j x h lt e = cc
  find_slot-first p (y ∷ xs) zero j x h lt e = absurd (omega arith)
  find_slot-first p (y ∷ xs) (suc i) zero x h lt e = ground arith
  find_slot-first p (y ∷ xs) (suc i) (suc j) x h lt e =
      find_slot-first p xs i j x (ground arith) (omega arith) e

  -- A slot that passes, below which none does, is the one that a scan returns.
  pub find_slot-intro :
      (p : A → Bool) (xs : List A) (i : ℕ) (x : A)
      → get_elem? xs i ≡ some x
      → p x ≡ true
      → ((j : ℕ) (y : A) → j < i → get_elem? xs j ≡ some y → p y ≡ false)
      → find_slot p xs ≡ some i
  unfolding find_slot
  find_slot-intro p [] i x e h below = cc
  find_slot-intro p (y ∷ xs) zero x e h below = ground arith
  find_slot-intro p (y ∷ xs) (suc i) x e h below =
      ground
        (arith, below 0 y, find_slot-intro p xs i x e h (λ j z lt. below (suc j) z (omega arith)))

  -- A scan comes back with a slot where some slot passes.
  pub find_slot-exists :
      (p : A → Bool) (xs : List A) (i : ℕ) (x : A)
      → get_elem? xs i ≡ some x
      → p x ≡ true
      → (j : ℕ) × (find_slot p xs ≡ some j)
  unfolding find_slot
  find_slot-exists p [] i x e h = cc
  find_slot-exists p (y ∷ xs) zero x e h = (0, ground arith)
  find_slot-exists p (y ∷ xs) (suc i) x e h =
      let (j, found) = find_slot-exists p xs i x e h in
      elim (Bool-cases (p y)) [ inl hit ↦ (0, rw hit) | inr miss ↦ (suc j, rw (miss, found)) ]

  -- A write that does not change what the test says of its slot does not change the scan.
  pub find_slot-set :
      (p : A → Bool) (xs : List A) (i : ℕ) (x y : A)
      → get_elem? xs i ≡ some y
      → p x ≡ p y
      → find_slot p (set xs i x) ≡ find_slot p xs
  unfolding find_slot
  find_slot-set p [] i x y at same = refl
  find_slot-set p (z ∷ xs) zero x y at same = ground arith
  find_slot-set p (z ∷ xs) (suc i) x y at same = rw (find_slot-set p xs i x y at same)
