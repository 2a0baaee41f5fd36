-- ===== src/Dkomp/Tests.antt =====
-- The navigators on a list of three nodes at the addresses 7, 4 and 9.
use tnc640unix.Base.{
  ℕ, suc, ◌+◌, ◌≡◌, refl, none, some, List, [], ◌∷◌, arith, if◌then◌else◌, ◌==◌, length,
}
use mathlib.Core.List.{reverse}
use tnc640unix.Dkomp.{Node, Heap, Family, resolve, first, next, prev, edge_next}
use tnc640unix.Dkomp.Traverse.{visits, Holds, traverse_list}

abbrev node_at : ℕ → Node
node_at p =
    if p == 7
    then record { next = 4; prev = 0 }
    else if p == 4
    then record { next = 9; prev = 7 }
    else record { next = 0; prev = 4 }

-- Channel 1 of the handle 100; its slot leads to a holder, a wrapper or an edge descriptor.
abbrev three : Heap
three = record {
  nodes = node_at;
  containers = λ p. record { head = 7; tail = 9; cursor = 0 };
  slots = λ a i. 20 + i;
  holder = λ p. 30;
  hilf_wrap = λ p. 31;
  rot3d_wrap = λ p. 32;
  box3d_wrap = λ p. 33;
  edges = λ p. record { container = 34; start = 4; last = 9 };
}

three-Holds : Holds Family.hilf 100 1 three 7 (4 ∷ 9 ∷ [])
unfolding resolve
three-Holds = record {
  found = omega arith;
  head = refl;
  present = omega arith;
  before = refl;
  behind = (refl, omega arith, refl, (refl, omega arith, refl, refl));
}

traverse_list_example :
    (there : Heap) × (back : Heap) × (bs : List ℕ) × (z : ℕ) × ((first Family.hilf 100 1 three).0
      ≡ 7)
    × (visits 3 (next Family.hilf 100 1) (first Family.hilf 100 1 three).1
        ≡ some (4 ∷ 9 ∷ [], there))
    × (reverse (7 ∷ 4 ∷ 9 ∷ []) ≡ z ∷ bs)
    × (visits (suc (length bs)) (prev Family.hilf 100 1) there ≡ some (bs, back))
traverse_list_example = traverse_list Family.hilf 100 1 three 7 (4 ∷ 9 ∷ []) three-Holds

-- A step from the null cursor of a container that nobody has moved is a fault.
no_cursor : next Family.box3d 100 1 three ≡ none
unfolding next resolve
no_cursor = refl

edge_end_reached : (edge_next 100 1 9 three).0 ≡ 0
unfolding edge_next
edge_end_reached = refl
