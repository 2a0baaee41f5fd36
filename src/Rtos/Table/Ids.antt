-- ===== src/Rtos/Table/Ids.antt =====
-- A table whose used slots carry ids handed out by a counter: no two share one, and all lie
-- between the counter's start and its next value.
use tnc640unix.Base.{
  ℕ, zero, suc, ◌+◌, ◌≤◌, ◌<◌, ◌≡◌, ◌≢◌, refl, ap, ◌⊎◌, inl, inr, Bool, true, false, ◌&&◌, not,
  Option, none, some, List, arith, ◌==◌, Bool-cases, Option-cases, get_elem?, set, length,
  length-set, get_elem?-lt, get_elem?-set_self, get_elem?-set_ne, replicate,
}
use native.Mathlib.Decide.{ℕ_discrete}
use tnc640unix.Rtos.Table.{find_slot, find_slot-some, find_slot-intro}

replicated {ℓ} :
    {A : Type ℓ} (n : ℕ) (x : A) (i : ℕ) {y : A} → get_elem? (replicate n x) i ≡ some y → y ≡ x
replicated zero x i h = cc
replicated (suc n) x zero h = cc
replicated (suc n) x (suc i) h = replicated n x i h

module _ {ℓ} {A : Type ℓ} (used : A → Bool) (id : A → ℕ) where
  pub record Ids (base next : ℕ) (xs : List A) : Type ℓ where
    pub range :
        (i : ℕ) (x : A) → get_elem? xs i ≡ some x → used x ≡ true → (base ≤ id x) × (id x < next)
    pub distinct :
        (i j : ℕ) (x y : A)
        → get_elem? xs i ≡ some x
        → get_elem? xs j ≡ some y
        → used x ≡ true
        → used y ≡ true
        → id x ≡ id y
        → i ≡ j

  abbrev pub has_id : ℕ → A → Bool
  has_id k x = used x && id x == k

  -- `for(i) if(t[i].used && t[i].id==k) return i;`
  abbrev pub id_slot : ℕ → List A → Option ℕ
  id_slot k = find_slot (has_id k)

  -- `for(i) if(!t[i].used) { s=i; break; }`
  abbrev pub free_slot : List A → Option ℕ
  free_slot = find_slot (λ x. not (used x))

  pub has_id-parts : (k : ℕ) (x : A) → has_id k x ≡ true → (used x ≡ true) × (id x ≡ k)
  has_id-parts k x h = ground arith

  -- What a slot of an updated table holds.
  pub set-cases :
      (xs : List A) (i j : ℕ) (v y : A)
      → get_elem? (set xs i v) j ≡ some y
      → ((i ≡ j) × (y ≡ v)) ⊎ ((i ≢ j) × (get_elem? xs j ≡ some y))
  set-cases xs i j v y h = elim (ℕ_discrete i j) [
    | yes e ↦ inl (e, same e)
    | no ne ↦ inr (ne, cc (h, get_elem?-set_ne xs i j v ne))
  ]
    where
      here : j < length xs
      here = omega (arith, get_elem?-lt (set xs i v) j h, length-set xs i v)

      same : i ≡ j → y ≡ v
      same e =
          cc (h, get_elem?-set_self xs i v (omega (arith, here, e)), ap (get_elem? (set xs i v)) e)

  pub Ids-alloc :
      (base next : ℕ) (xs : List A) (i : ℕ) (x : A)
      → base ≤ next
      → used x ≡ true
      → id x ≡ next
      → Ids base next xs
      → Ids base (next + 1) (set xs i x)
  Ids-alloc base next xs i x le u e d = record {
    range = λ j z at uz. elim (set-cases xs i j x z at) [
      | inl (_, same) ↦ omega (arith, ap id same)
      | inr (_, old) ↦ omega (arith, d.range j z old uz)
    ];
    distinct = λ j k y z aj ak uy uz same. elim (set-cases xs i j x y aj) [
      | inl (ij, ey) ↦ elim (set-cases xs i k x z ak) [
        | inl (ik, ez) ↦ omega arith
        | inr (_, old) ↦ absurd (omega (arith, ap id ey, d.range k z old uz))
      ]
      | inr (_, old) ↦ elim (set-cases xs i k x z ak) [
        | inl (_, ez) ↦ absurd (omega (arith, ap id ez, d.range j y old uy))
        | inr (_, old') ↦ d.distinct j k y z old old' uy uz same
      ]
    ];
  }

  -- A used slot of an updated table was used before, under the same id.
  source :
      (xs : List A) (i j : ℕ) (x y v : A)
      → get_elem? xs i ≡ some y
      → (used x ≡ true → (used y ≡ true) × (id x ≡ id y))
      → get_elem? (set xs i x) j ≡ some v
      → used v ≡ true
      → (p : A) × (get_elem? xs j ≡ some p) × (used p ≡ true) × (id v ≡ id p)
  source xs i j x y v at keep h u = elim (set-cases xs i j x v h) [
    | inl (e, same) ↦
        let (uy, ids) = keep (cc (u, ap used same)) in
        (y, cc (at, ap (get_elem? xs) e), uy, cc (ids, ap id same))
    | inr (_, old) ↦ (v, old, u, refl)
  ]

  -- An update that keeps the id, or that frees the slot.
  pub Ids-update :
      (base next : ℕ) (xs : List A) (i : ℕ) (x y : A)
      → get_elem? xs i ≡ some y
      → (used x ≡ true → (used y ≡ true) × (id x ≡ id y))
      → Ids base next xs
      → Ids base next (set xs i x)
  Ids-update base next xs i x y at keep d = record {
    range = λ j v h u.
        let (p, old, up, e) = source xs i j x y v at keep h u in
        omega (arith, e, d.range j p old up);
    distinct = λ j k v w hj hk uv uw same.
        let (p, old, up, ep) = source xs i j x y v at keep hj uv in
        let (q, old', uq, eq) = source xs i k x y w at keep hk uw in
        d.distinct j k p q old old' up uq (omega (arith, ep, eq, same));
  }

  -- The slot of an id is the one that holds it.
  pub id_slot-eq :
      (base next : ℕ) (xs : List A) (i : ℕ) (x : A)
      → Ids base next xs
      → get_elem? xs i ≡ some x
      → used x ≡ true
      → id_slot (id x) xs ≡ some i
  id_slot-eq base next xs i x d at u =
      find_slot-intro (has_id (id x)) xs i x at (ground arith) λ j y lt aj.
        elim (Bool-cases (has_id (id x) y)) [
          | inl hit ↦
              let (uy, e) = has_id-parts (id x) y hit in
              absurd (omega (arith, d.distinct j i y x aj at uy u e))
          | inr miss ↦ miss
        ]

  -- A lookup by id returns a used slot with that id.
  pub id_slot-some :
      (k : ℕ) (xs : List A) (i : ℕ)
      → id_slot k xs ≡ some i
      → (x : A) × (get_elem? xs i ≡ some x) × (used x ≡ true) × (id x ≡ k)
  id_slot-some k xs i h =
      let (x, at, hit) = find_slot-some (has_id k) xs i h in
      let (u, e) = has_id-parts k x hit in (x, at, u, e)

  -- A free slot is not in use.
  pub free_slot-some :
      (xs : List A) (i : ℕ)
      → free_slot xs ≡ some i
      → (x : A) × (get_elem? xs i ≡ some x) × (used x ≡ false)
  free_slot-some xs i h =
      let (x, at, free) = find_slot-some (λ x. not (used x)) xs i h in (x, at, ground arith)

  -- No lookup finds an id that has not been handed out yet.
  pub id_slot-none_above :
      (base next : ℕ) (xs : List A) (k : ℕ) → Ids base next xs → next ≤ k → id_slot k xs ≡ none
  id_slot-none_above base next xs k d le = elim (Option-cases (id_slot k xs)) [
    | inl e ↦ e
    | inr (i, e) ↦
        let (x, at, u, same) = id_slot-some k xs i e in
        absurd (omega (arith, same, d.range i x at u))
  ]

  -- A table with no used slot.
  pub Ids-empty : (base next n : ℕ) (x : A) → used x ≡ false → Ids base next (replicate n x)
  Ids-empty base next n x u = record {
    range = λ i y at uy. cc (u, uy, replicated n x i at);
    distinct = λ i j y z at _ uy _ _. cc (u, uy, replicated n x i at);
  }
