-- ===== src/Dkomp.antt =====
-- The list navigators of recomp/dkomp: a pointer is an address, 0 the null pointer, and a heap has
-- the object of each type at each address, also past the four slots of a handle. `none` is the
-- fault of a step from a null cursor.
mod Tests
pub mod Walk
pub mod Traverse
use tnc640unix.Base.{ℕ, ◌+◌, ◌-◌, ◌%◌, Bool, Option, none, some, if◌then◌else◌, ◌==◌}

-- `Node`, without the harness's tag
pub record Node : Type 0 where
  pub next : ℕ
  pub prev : ℕ

-- `Container`
pub record Container : Type 0 where
  pub head : ℕ
  pub tail : ℕ
  pub cursor : ℕ

-- `EdgeDesc`
pub record EdgeDesc : Type 0 where
  pub container : ℕ
  pub start : ℕ
  pub last : ℕ

-- `slots` are a handle's channel slots, which lead to the holder of a container's address, to a
-- wrapper of one of three kinds, or to an edge descriptor.
pub record Heap : Type 0 where
  pub nodes : ℕ → Node
  pub containers : ℕ → Container
  pub slots : ℕ → ℕ → ℕ
  pub holder : ℕ → ℕ
  pub hilf_wrap : ℕ → ℕ
  pub rot3d_wrap : ℕ → ℕ
  pub box3d_wrap : ℕ → ℕ
  pub edges : ℕ → EdgeDesc

-- `c->cursor = p`
abbrev pub put_cursor : ℕ → ℕ → Heap → Heap
put_cursor c p h = record h {
  containers = λ q. if q == c then record (h.containers q) { cursor = p } else h.containers q;
}

-- The slot `(unsigned char)(ch - 1)` of a handle that is not null
abbrev pub slot : Heap → ℕ → ℕ → ℕ
slot h handle ch = h.slots handle ((ch + 255) % 256)

-- The four families of containers
pub data Family : Type 0 where
  huelle : Family
  hilf : Family
  rot3d : Family
  box3d : Family

-- The container behind a slot that is not null
abbrev pub behind : Family → Heap → ℕ → ℕ
behind huelle h p = h.holder p
behind hilf h p = h.hilf_wrap p
behind rot3d h p = h.rot3d_wrap p
behind box3d h p = h.box3d_wrap p

abbrev guarded : (ℕ → ℕ) → ℕ → ℕ
guarded read p = if p == 0 then 0 else read p

-- `resolve`, `resolve_hilf`, `resolve_rot3D` and `resolve_box3D`
unfoldable pub resolve : Family → Heap → ℕ → ℕ → ℕ
resolve f h handle ch = guarded (λ a. guarded (behind f h) (slot h a ch)) handle

-- `dkomp_nw_get_huelle`
unfoldable pub get_huelle : Heap → ℕ → ℕ → ℕ
unfolding resolve
get_huelle h handle ch = resolve huelle h handle ch

-- Moving to the head or the tail of a container
abbrev pub go_to : (Container → ℕ) → ℕ → Heap → ℕ × Heap
go_to end c h =
    if c == 0 then (0, h) else (end (h.containers c), put_cursor c (end (h.containers c)) h)

abbrev pub stand : ℕ → Heap → ℕ
stand c h = if c == 0 then 0 else (h.containers c).cursor

-- A step along a link of the node at the cursor
abbrev pub step_to : (Node → ℕ) → ℕ → Heap → Option (ℕ × Heap)
step_to link c h =
    let at = (h.containers c).cursor in
    let to = link (h.nodes at) in
    if c == 0
    then some (0, h)
    else if at == 0
    then none
    else if to == 0
    then some (0, h)
    else some (to, put_cursor c to h)

-- DKOMP_NAV_FAMILY: the five navigators of a family
unfoldable pub first : Family → ℕ → ℕ → Heap → ℕ × Heap
first f handle ch h = go_to (λ c. c.head) (resolve f h handle ch) h

unfoldable pub last : Family → ℕ → ℕ → Heap → ℕ × Heap
last f handle ch h = go_to (λ c. c.tail) (resolve f h handle ch) h

unfoldable pub current : Family → ℕ → ℕ → Heap → ℕ
current f handle ch h = stand (resolve f h handle ch) h

unfoldable pub next : Family → ℕ → ℕ → Heap → Option (ℕ × Heap)
next f handle ch h = step_to (λ n. n.next) (resolve f h handle ch) h

unfoldable pub prev : Family → ℕ → ℕ → Heap → Option (ℕ × Heap)
prev f handle ch h = step_to (λ n. n.prev) (resolve f h handle ch) h

-- `dkomp_nw_get_edge_start` and `dkomp_nw_get_edge_end`
abbrev edge_to : (EdgeDesc → ℕ) → ℕ → Heap → ℕ × Heap
edge_to end d h =
    if d == 0
    then (0, h)
    else (end (h.edges d), put_cursor (h.edges d).container (end (h.edges d)) h)

unfoldable pub edge_start : ℕ → ℕ → Heap → ℕ × Heap
edge_start handle ch h = edge_to (λ d. d.start) (guarded (λ a. slot h a ch) handle) h

unfoldable pub edge_end : ℕ → ℕ → Heap → ℕ × Heap
edge_end handle ch h = edge_to (λ d. d.last) (guarded (λ a. slot h a ch) handle) h

-- `dkomp_nw_get_edge_next` and `dkomp_nw_get_edge_prev`, on a handle and a slot that are not null
abbrev edge_step : (Node → ℕ) → (EdgeDesc → ℕ) → EdgeDesc → ℕ → Heap → ℕ × Heap
edge_step link stop d node h =
    if node == 0
    then (0, h)
    else if stop d == node
    then (0, h)
    else (link (h.nodes node), put_cursor d.container (link (h.nodes node)) h)

unfoldable pub edge_next : ℕ → ℕ → ℕ → Heap → ℕ × Heap
edge_next handle ch node h =
    edge_step (λ n. n.next) (λ d. d.last) (h.edges (slot h handle ch)) node h

unfoldable pub edge_prev : ℕ → ℕ → ℕ → Heap → ℕ × Heap
edge_prev handle ch node h =
    edge_step (λ n. n.prev) (λ d. d.start) (h.edges (slot h handle ch)) node h
