-- ===== src/Plc/Cond/Laws.antt =====
-- The stack against lists, and the case folding.
use tnc640unix.Base.{
  ℕ, zero, suc, ◌+◌, ◌-◌, ◌%◌, ◌^◌, ◌<◌, ◌≤◌, ◌≡◌, refl, sym, ap, subst, ◌∙◌, Bool, true, false,
  List, [], ◌∷◌, arith, if◌then◌else◌, ltb, length, length-set, get_or, set, get_or-set_self,
  get_or-set_ne, Bool-cases, inl, inr,
}
use tnc640unix.Plc.Cond.{toupper_ascii, tolower_ascii, Stack, push_stack, pop_stack}

-- The first `n` elements, the last one first.
abbrev pub below : List ℕ → ℕ → List ℕ
below xs zero = []
below xs (suc n) = get_or xs n 0 ∷ below xs n

-- The buffer `p` of 513 elements holds the list `xs`, top first.
pub record Holds (p : Stack) (xs : List ℕ) : Type 0 where
  pub room : length p.data_ ≡ 513
  pub size : length xs ≤ 513
  pub top_of : p.top ≡ (length xs + 2 ^ 32 - 1) % 2 ^ 32
  pub elements : below p.data_ (length xs) ≡ xs

below-set : (xs : List ℕ) (k v n : ℕ) → n ≤ k → below (set xs k v) n ≡ below xs n
below-set xs k v zero le = refl
below-set xs k v (suc n) le =
    λ i. get_or-set_ne xs k n v 0 (λ e. omega arith) i ∷ below-set xs k v n (omega arith) i

-- What a push of `v` on `xs` leaves, where there is room and where there is none.
abbrev pub Pushed : ℕ → List ℕ → Bool → Bool × Stack → Type 0
Pushed v xs room r = (r.0 ≡ room) × Holds r.1 (if room then v ∷ xs else xs)

push-room :
    (v : ℕ) (p : Stack) (xs : List ℕ)
    → Holds p xs
    → length xs < 513
    → push_stack v p ≡ (true, record { top = length xs; data_ = set p.data_ (length xs) v })
unfolding push_stack
push-room v p xs h lt = ground (arith, h.top_of)

push-full :
    (v : ℕ) (p : Stack) (xs : List ℕ) → Holds p xs → length xs ≡ 513 → push_stack v p ≡ (false, p)
unfolding push_stack
push-full v p xs h full = ground (arith, h.top_of)

pushed-Holds :
    (v : ℕ) (p : Stack) (xs : List ℕ)
    → Holds p xs
    → length xs < 513
    → Holds (record { top = length xs; data_ = set p.data_ (length xs) v }) (v ∷ xs)
pushed-Holds v p xs h lt = record {
  room = omega (arith, h.room, length-set p.data_ (length xs) v);
  size = omega arith;
  top_of = omega arith;
  elements = λ i.
      get_or-set_self p.data_ (length xs) v 0 (omega (arith, h.room)) i
      ∷ (below-set p.data_ (length xs) v (length xs) (omega arith) ∙ h.elements) i;
}

-- On a buffer that holds a list, a push answers whether fewer than 513 elements are there; if so
-- the buffer holds the list with the element on top, and if not it is unchanged.
pub push_stack-refines_list :
    (v : ℕ) (p : Stack) (xs : List ℕ)
    → Holds p xs
    → Pushed v xs (ltb (length xs) 513) (push_stack v p)
push_stack-refines_list v p xs h = elim (Bool-cases (ltb (length xs) 513)) [
  | inl e ↦
      subst (λ c. Pushed v xs c (push_stack v p)) (sym e)
        (subst (Pushed v xs true) (sym (push-room v p xs h (lt e)))
          (refl, pushed-Holds v p xs h (lt e)))
  | inr e ↦
      subst (λ c. Pushed v xs c (push_stack v p)) (sym e)
        (subst (Pushed v xs false) (sym (push-full v p xs h (full e))) (refl, h))
]
  where
    lt : ltb (length xs) 513 ≡ true → length xs < 513
    lt e = ground arith

    full : ltb (length xs) 513 ≡ false → length xs ≡ 513
    full e = ground (arith, h.size)

-- What a pop or a peek of a list shows: the top, or the given answer for an empty stack.
abbrev pub top_or : ℕ → List ℕ → ℕ
top_or d [] = d
top_or d (x ∷ xs) = x

abbrev pub rest_of : List ℕ → List ℕ
rest_of [] = []
rest_of (x ∷ xs) = xs

pop-empty : (p : Stack) → p.top ≡ 2 ^ 32 - 1 → pop_stack p ≡ (0, p)
unfolding pop_stack
pop-empty p e = ground (arith, e)

pop-some :
    (p : Stack) (n : ℕ)
    → n < 513
    → p.top ≡ n
    → pop_stack p
      ≡ (get_or p.data_ n 0, record { top = (n + 2 ^ 32 - 1) % 2 ^ 32; data_ = p.data_ })
unfolding pop_stack
pop-some p n lt e =
    ground (arith, e)
    ∙ (λ i. (get_or p.data_ (e i) 0, record { top = (e i + 2 ^ 32 - 1) % 2 ^ 32; data_ = p.data_ }))

-- On a buffer that holds a list, a pop answers the top element and leaves the rest of the list;
-- of an empty one it answers 0 and changes nothing.
pub pop_stack-refines_list :
    (p : Stack) (xs : List ℕ)
    → Holds p xs
    → ((pop_stack p).0 ≡ top_or 0 xs) × Holds (pop_stack p).1 (rest_of xs)
pop_stack-refines_list p [] h =
    subst (λ (r : ℕ × Stack). (r.0 ≡ 0) × Holds r.1 [])
      (sym (pop-empty p (omega (arith, h.top_of)))) (refl, h)
pop_stack-refines_list p (x ∷ xs) h =
    subst (λ (r : ℕ × Stack). (r.0 ≡ x) × Holds r.1 xs)
      (sym (pop-some p (length xs) (omega (arith, h.size)) (omega (arith, h.top_of, h.size))))
      (
        ap (top_or 0) h.elements,
        record {
          room = h.room;
          size = omega (arith, h.size);
          top_of = omega arith;
          elements = ap rest_of h.elements;
        },
      )

-- A pop undoes a push that had room.
pub pop-push :
    (v : ℕ) (p : Stack) (xs : List ℕ)
    → Holds p xs
    → length xs < 513
    → ((pop_stack (push_stack v p).1).0 ≡ v) × Holds (pop_stack (push_stack v p).1).1 xs
pop-push v p xs h lt =
    subst (λ (r : Bool × Stack). ((pop_stack r.1).0 ≡ v) × Holds (pop_stack r.1).1 xs)
      (sym (push-room v p xs h lt)) (pop_stack-refines_list _ (v ∷ xs) (pushed-Holds v p xs h lt))

-- Folding an int to upper case and then to lower case is folding it to lower case.
pub tolower-toupper : (c : ℕ) → c < 2 ^ 32 → tolower_ascii (toupper_ascii c) ≡ tolower_ascii c
unfolding tolower_ascii toupper_ascii
tolower-toupper c h = ground arith
