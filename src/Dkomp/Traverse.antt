-- ===== src/Dkomp/Traverse.antt =====
-- A client's loops over a list of recomp/dkomp: first, then next up to the end, and prev back.
use tnc640unix.Base.{
  ℕ, zero, suc, ◌≡◌, ◌≢◌, refl, ap, Option, none, some, List, [], ◌∷◌, arith, if◌then◌else◌, ◌==◌,
  length,
}
use mathlib.Core.List.{reverse, reverse_aux}
use tnc640unix.Dkomp.{Heap, Family, resolve, first, next, prev}
use tnc640unix.Dkomp.Walk.{
  Zipper, Behind, at_cursor, next-SteppedOn, prev-SteppedBack, resolve-put_cursor, cursor-at_cursor,
}

abbrev visited : ℕ → Option (List ℕ × Heap) → Option (List ℕ × Heap)
visited p none = none
visited p (some (ps, g)) = some (p ∷ ps, g)

-- `while ((p = step()) != 0) visit(p);`: the nodes visited; `none` is a fault, or `k` steps were too few.
abbrev pub visits : ℕ → (Heap → Option (ℕ × Heap)) → Heap → Option (List ℕ × Heap)
visits zero step h = none
visits (suc k) step h = elim (step h) [
  | none ↦ none
  | some (p, g) ↦ let rest = visited p (visits k step g) in if p == 0 then some ([], g) else rest
]

visits_end :
    (k : ℕ) (step : Heap → Option (ℕ × Heap)) (h g : Heap)
    → step h ≡ some (0, g)
    → visits (suc k) step h ≡ some ([], g)
visits_end k step h g e = rw (e, visits)

visits_more :
    (k p : ℕ) (step : Heap → Option (ℕ × Heap)) (h g l : Heap) (ps : List ℕ)
    → step h ≡ some (p, g)
    → p ≢ 0
    → visits k step g ≡ some (ps, l)
    → visits (suc k) step h ≡ some (p ∷ ps, l)
visits_more k p step h g l ps e ok es = rw (e, visits) (ground arith)

module _ (f : Family) (handle ch : ℕ) where
  -- The left part and the node where a walk to the right ends
  abbrev ending : List ℕ → ℕ → List ℕ → List ℕ × ℕ
  ending left x [] = (left, x)
  ending left x (y ∷ ys) = ending (x ∷ left) y ys

  ending-reverse :
      (left : List ℕ) (x : ℕ) (right : List ℕ)
      → let (bs, z) = ending left x right in reverse_aux right (x ∷ left) ≡ z ∷ bs
  ending-reverse left x [] = refl
  ending-reverse left x (y ∷ ys) = ending-reverse (x ∷ left) y ys

  walk_on :
      (left : List ℕ) (x : ℕ) (right : List ℕ) (h : Heap)
      → Zipper f handle ch h left x right
      → (g : Heap) × (visits (suc (length right)) (next f handle ch) h ≡ some (right, g))
        × Zipper f handle ch g (ending left x right).0 (ending left x right).1 []
  walk_on left x [] h z =
      (h, visits_end 0 (next f handle ch) h h (next-SteppedOn f handle ch h left x [] z), z)
  walk_on left x (y ∷ ys) h z =
      let (e, z') = next-SteppedOn f handle ch h left x (y ∷ ys) z in
      let (g, es, end) = walk_on (x ∷ left) y ys _ z' in
      (g, visits_more (suc (length ys)) y (next f handle ch) h _ g ys e z.behind.1 es, end)

  walk_back :
      (left : List ℕ) (x : ℕ) (right : List ℕ) (h : Heap)
      → Zipper f handle ch h left x right
      → (g : Heap) × (visits (suc (length left)) (prev f handle ch) h ≡ some (left, g))
  walk_back [] x right h z =
      (h, visits_end 0 (prev f handle ch) h h (prev-SteppedBack f handle ch h [] x right z))
  walk_back (b ∷ bs) x right h z =
      let (e, z') = prev-SteppedBack f handle ch h (b ∷ bs) x right z in
      let (g, es) = walk_back bs b (x ∷ right) _ z' in
      (g, visits_more (suc (length bs)) b (prev f handle ch) h _ g bs e z.before.1 es)

  -- A channel whose container holds the nodes `x ∷ ys`, linked both ways and null at both ends; the
  -- cursor stands anywhere.
  pub record Holds (h : Heap) (x : ℕ) (ys : List ℕ) : Type 0 where
    pub found : resolve f h handle ch ≢ 0
    pub head : (h.containers (resolve f h handle ch)).head ≡ x
    pub present : x ≢ 0
    pub before : (h.nodes x).prev ≡ 0
    pub behind : Behind h.nodes x ys

  first-Zipper :
      (h : Heap) (x : ℕ) (ys : List ℕ)
      → Holds h x ys
      → (first f handle ch h ≡ (x, at_cursor f handle ch x h))
        × Zipper f handle ch (at_cursor f handle ch x h) [] x ys
  unfolding first
  first-Zipper h x ys o = (
    rw o.head (ground (arith, o.found)),
    record {
      found = rw (resolve-put_cursor f h handle ch _ x) o.found;
      cursor = cursor-at_cursor f handle ch h x;
      present = o.present;
      before = o.before;
      behind = o.behind;
    },
  )

  -- In a channel that holds a list of nodes, `first` answers the first node; calls of `next` up to
  -- the first null answer are one more than the nodes left and answer these in order, without a
  -- fault; and calls of `prev` from there answer the nodes before the last one, backwards.
  pub traverse_list :
      (h : Heap) (x : ℕ) (ys : List ℕ)
      → Holds h x ys
      → (there : Heap) × (back : Heap) × (bs : List ℕ) × (z : ℕ) × ((first f handle ch h).0 ≡ x)
        × (visits (suc (length ys)) (next f handle ch) (first f handle ch h).1 ≡ some (ys, there))
        × (reverse (x ∷ ys) ≡ z ∷ bs)
        × (visits (suc (length bs)) (prev f handle ch) there ≡ some (bs, back))
  traverse_list h x ys o =
      let (e, zip) = first-Zipper h x ys o in
      let (there, es, end) = walk_on [] x ys _ zip in
      let (back, fs) = walk_back _ _ [] there end in
      (
        there,
        back,
        (ending [] x ys).0,
        (ending [] x ys).1,
        ap (λ r. r.0) e,
        rw e es,
        ending-reverse [] x ys,
        fs,
      )
