-- ===== src/Rtos/Acks/Dedup.antt =====
-- The array acked_qids of the connect answers as a list: what remembering and forgetting do to it.
use tnc640unix.Base.{
  ℕ, zero, suc, ◌+◌, ◌-◌, ◌<◌, ◌≤◌, ◌≡◌, inl, inr, refl, ap, sym, ◌∙◌, true, false, Option, none,
  some, List, [], ◌∷◌, ◌++◌, arith, if◌then◌else◌, ◌==◌, ltb, length, take, set, get_or,
  get_elem?-eq-get_or, get_elem?-lt, Bool-cases, length-append, length-set, length-take,
}
use tnc640unix.Rtos.Table.{find_slot, find_slot-some}
use tnc640unix.Rtos.Acks.{holds, remember, without, forget}

abbrev pub one : ℕ → ℕ → ℕ
one x y = if x == y then 1 else 0

-- How often an id stands in a list
abbrev pub count : ℕ → List ℕ → ℕ
count y [] = 0
count y (x ∷ xs) = one x y + count y xs

count-append : (y : ℕ) (xs ys : List ℕ) → count y (xs ++ ys) ≡ count y xs + count y ys
count-append y [] ys = omega arith
count-append y (x ∷ xs) ys = omega (arith, count-append y xs ys)

count-take :
    (y n : ℕ) (xs : List ℕ)
    → length xs ≡ suc n
    → count y xs ≡ count y (take n xs) + one (get_or xs n 0) y
count-take y n [] h = absurd (omega arith)
count-take y zero (x ∷ []) h = omega arith
count-take y zero (x ∷ (z ∷ xs)) h = absurd (omega arith)
count-take y (suc n) (x ∷ xs) h = omega (arith, count-take y n xs (omega arith))

count-set :
    (y : ℕ) (xs : List ℕ) (i v : ℕ)
    → i < length xs
    → count y (set xs i v) + one (get_or xs i 0) y ≡ count y xs + one v y
count-set y [] i v h = absurd (omega arith)
count-set y (x ∷ xs) zero v h = omega arith
count-set y (x ∷ xs) (suc i) v h = omega (arith, count-set y xs i v (omega arith))

set_beyond : (xs : List ℕ) (i v : ℕ) → length xs ≤ i → set xs i v ≡ xs
set_beyond [] i v h = refl
set_beyond (x ∷ xs) zero v h = absurd (omega arith)
set_beyond (x ∷ xs) (suc i) v h = ap (◌∷◌ x) (set_beyond xs i v (omega arith))

get_or-take : (n i : ℕ) (xs : List ℕ) → i < n → get_or (take n xs) i 0 ≡ get_or xs i 0
get_or-take zero i xs h = absurd (omega arith)
get_or-take (suc n) i [] h = refl
get_or-take (suc n) zero (x ∷ xs) h = refl
get_or-take (suc n) (suc i) (x ∷ xs) h = get_or-take n i xs (omega arith)

-- Overwriting the entry `i` by the last one of `n + 1`, and dropping the last one
count_swapped :
    (y n i : ℕ) (xs : List ℕ)
    → length xs ≡ suc n
    → i < suc n
    → count y (set (take n xs) i (get_or xs n 0)) + one (get_or xs i 0) y ≡ count y xs
count_swapped y n i xs l h = elim (Bool-cases (ltb i n)) [
  | inl inner ↦ omega (
    arith,
    count-take y n xs l,
    count-set y (take n xs) i (get_or xs n 0) (ground (arith, length-take n xs)),
    ap (λ k. one k y) (get_or-take n i xs (ground arith)),
  )
  | inr outer ↦
      rw (set_beyond (take n xs) i (get_or xs n 0) (ground (arith, length-take n xs)))
        (let same : i ≡ n = ground arith in rw same (omega (arith, count-take y n xs l)))
]

find_slot-count : (x : ℕ) (xs : List ℕ) → find_slot (λ y. y == x) xs ≡ none → count x xs ≡ 0
unfolding find_slot
find_slot-count x [] h = refl
find_slot-count x (z ∷ xs) h = elim (Bool-cases (z == x)) [
  | inl same ↦ cc (rw same at h)
  | inr other ↦ ground (arith, find_slot-count x xs)
]

count-without :
    (x y : ℕ) (xs : List ℕ) (o : Option ℕ)
    → find_slot (λ z. z == x) xs ≡ o
    → count y (without xs o) ≡ count y xs - one x y
count-without x y xs none h = ground (arith, find_slot-count x xs h)
count-without x y xs (some i) h =
    let (z, there, same) = find_slot-some (λ z. z == x) xs i h in
    let inside : i < length xs = get_elem?-lt xs i there in
    let it : some (get_or xs i 0) ≡ some z = sym (get_elem?-eq-get_or xs i 0 inside) ∙ there in
    ground (arith, it, count_swapped y (length xs - 1) i xs)

-- `forget` takes one occurrence of the id out, and none of another id.
pub count-forget : (x y : ℕ) (xs : List ℕ) → count y (forget x xs) ≡ count y xs - one x y
unfolding forget
count-forget x y xs = count-without x y xs _ refl

length-without : (xs : List ℕ) (o : Option ℕ) → length (without xs o) ≤ length xs
length-without xs none = omega arith
length-without xs (some i) =
    let zs = take (length xs - 1) xs in
    omega (arith, length-set zs i (get_or xs (length xs - 1) 0), length-take (length xs - 1) xs)

length-forget : (x : ℕ) (xs : List ℕ) → length (forget x xs) ≤ length xs
unfolding forget
length-forget x xs = length-without xs (find_slot (λ y. y == x) xs)

pub holds-count : (x : ℕ) (xs : List ℕ) → holds x xs ≡ false → count x xs ≡ 0
holds-count x [] h = refl
holds-count x (y ∷ ys) h = elim (Bool-cases (y == x)) [
  | inl same ↦ cc (rw same at h)
  | inr other ↦ ground (arith, holds-count x ys)
]

pub count-holds : (x : ℕ) (xs : List ℕ) → count x xs ≡ 0 → holds x xs ≡ false
count-holds x [] h = refl
count-holds x (y ∷ ys) h = ground (arith, count-holds x ys)

holds-append : (x : ℕ) (xs : List ℕ) → holds x (xs ++ (x ∷ [])) ≡ true
holds-append x [] = ground arith
holds-append x (y ∷ ys) = ground (arith, holds-append x ys)

pub holds-remember : (x : ℕ) (xs : List ℕ) → length xs < 32 → holds x (remember 32 x xs) ≡ true
unfolding remember
holds-remember x xs room = ground (arith, holds-append x xs)

-- No id stands twice in the array of 32 entries.
pub record AckList (xs : List ℕ) : Type 0 where
  pub once : (y : ℕ) → count y xs ≤ 1
  pub room : length xs ≤ 32

pub remember-AckList :
    (x : ℕ) (xs : List ℕ) → holds x xs ≡ false → AckList xs → AckList (remember 32 x xs)
unfolding remember
remember-AckList x xs new l = elim (Bool-cases (ltb (length xs) 32)) [
  | inl fits ↦ rw fits (record {
    once = λ y. ground (arith, count-append y xs (x ∷ []), holds-count x xs new, l.once y);
    room = ground (arith, length-append xs (x ∷ []));
  })
  | inr full ↦ rw full l
]

pub forget-AckList : (x : ℕ) (xs : List ℕ) → AckList xs → AckList (forget x xs)
forget-AckList x xs l = record {
  once = λ y. omega (arith, count-forget x y xs, l.once y);
  room = omega (arith, length-forget x xs, l.room);
}
