-- ===== src/Dkomp/Walk.antt =====
-- The navigators of recomp/dkomp on a doubly linked list: a zipper, and whole traversals.
use tnc640unix.Base.{ℕ, ◌≡◌, ◌≢◌, refl, Option, some, List, [], ◌∷◌, arith}
use tnc640unix.Dkomp.{Heap, Node, Family, put_cursor, step_to, resolve, next, prev}

-- The nodes before a node, the nearest first, and those behind it, each linked both ways.
abbrev pub Before : (ℕ → Node) → ℕ → List ℕ → Type 0
Before m x [] = (m x).prev ≡ 0
Before m x (b ∷ bs) = ((m x).prev ≡ b) × (b ≢ 0) × ((m b).next ≡ x) × Before m b bs

abbrev pub Behind : (ℕ → Node) → ℕ → List ℕ → Type 0
Behind m x [] = (m x).next ≡ 0
Behind m x (y ∷ ys) = ((m x).next ≡ y) × (y ≢ 0) × ((m y).prev ≡ x) × Behind m y ys

pub resolve-put_cursor :
    (f : Family) (h : Heap) (handle ch c p : ℕ)
    → resolve f (put_cursor c p h) handle ch ≡ resolve f h handle ch
unfolding resolve
resolve-put_cursor Family.huelle h handle ch c p = refl
resolve-put_cursor Family.hilf h handle ch c p = refl
resolve-put_cursor Family.rot3d h handle ch c p = refl
resolve-put_cursor Family.box3d h handle ch c p = refl

-- A step from a node to another one, and a step where the link is null
step_to-moves :
    (link : Node → ℕ) (c at to : ℕ) (h : Heap)
    → c ≢ 0
    → (h.containers c).cursor ≡ at
    → at ≢ 0
    → link (h.nodes at) ≡ to
    → to ≢ 0
    → step_to link c h ≡ some (to, put_cursor c to h)
step_to-moves link c at to h c_ok e at_ok l to_ok = rw (e, l) (ground arith)

step_to-stays :
    (link : Node → ℕ) (c at : ℕ) (h : Heap)
    → c ≢ 0
    → (h.containers c).cursor ≡ at
    → at ≢ 0
    → link (h.nodes at) ≡ 0
    → step_to link c h ≡ some (0, h)
step_to-stays link c at h c_ok e at_ok l = rw (e, l) (ground arith)

module _ (f : Family) (handle ch : ℕ) where
  -- A handle's channel of a family leads to a container whose cursor stands in a doubly linked list.
  pub record Zipper (h : Heap) (left : List ℕ) (x : ℕ) (right : List ℕ) : Type 0 where
    pub found : resolve f h handle ch ≢ 0
    pub cursor : (h.containers (resolve f h handle ch)).cursor ≡ x
    pub present : x ≢ 0
    pub before : Before h.nodes x left
    pub behind : Behind h.nodes x right

  abbrev pub at_cursor : ℕ → Heap → Heap
  at_cursor p h = put_cursor (resolve f h handle ch) p h

  pub cursor-at_cursor :
      (h : Heap) (p : ℕ)
      → ((at_cursor p h).containers (resolve f (at_cursor p h) handle ch)).cursor ≡ p
  cursor-at_cursor h p = rw (resolve-put_cursor f h handle ch _ p) (ground arith)

  -- What a step answers, and where it leaves the cursor.
  abbrev pub SteppedOn : Heap → List ℕ → ℕ → List ℕ → Option (ℕ × Heap) → Type 0
  SteppedOn h left x [] r = r ≡ some (0, h)
  SteppedOn h left x (y ∷ ys) r =
      (r ≡ some (y, at_cursor y h)) × Zipper (at_cursor y h) (x ∷ left) y ys

  abbrev pub SteppedBack : Heap → List ℕ → ℕ → List ℕ → Option (ℕ × Heap) → Type 0
  SteppedBack h [] x right r = r ≡ some (0, h)
  SteppedBack h (b ∷ bs) x right r =
      (r ≡ some (b, at_cursor b h)) × Zipper (at_cursor b h) bs b (x ∷ right)

  pub next-SteppedOn :
      (h : Heap) (left : List ℕ) (x : ℕ) (right : List ℕ)
      → Zipper h left x right
      → SteppedOn h left x right (next f handle ch h)
  unfolding next
  next-SteppedOn h left x [] z =
      step_to-stays (λ n. n.next) _ x h z.found z.cursor z.present z.behind
  next-SteppedOn h left x (y ∷ ys) z = (
    step_to-moves (λ n. n.next) _ x y h z.found z.cursor z.present z.behind.0 z.behind.1,
    record {
      found = rw (resolve-put_cursor f h handle ch _ y) z.found;
      cursor = cursor-at_cursor h y;
      present = z.behind.1;
      before = (z.behind.2, z.present, z.behind.0, z.before);
      behind = z.behind.3;
    },
  )

  pub prev-SteppedBack :
      (h : Heap) (left : List ℕ) (x : ℕ) (right : List ℕ)
      → Zipper h left x right
      → SteppedBack h left x right (prev f handle ch h)
  unfolding prev
  prev-SteppedBack h [] x right z =
      step_to-stays (λ n. n.prev) _ x h z.found z.cursor z.present z.before
  prev-SteppedBack h (b ∷ bs) x right z = (
    step_to-moves (λ n. n.prev) _ x b h z.found z.cursor z.present z.before.0 z.before.1,
    record {
      found = rw (resolve-put_cursor f h handle ch _ b) z.found;
      cursor = cursor-at_cursor h b;
      present = z.before.1;
      before = z.before.3;
      behind = (z.before.2, z.present, z.before.0, z.behind);
    },
  )
