-- ===== src/Rtos/Queues/Fifo.antt =====
-- The message ring is a FIFO of at most QSLOTS messages that drops its oldest one when it is full,
-- until its counters wrap.
use tnc640unix.Base.{
  ℕ, zero, suc, ◌+◌, ◌-◌, ◌%◌, ◌^◌, ◌≤◌, ◌<◌, ◌≡◌, refl, sym, ap, subst, ◌∙◌, ◌⊎◌, inl, inr, List,
  [], ◌∷◌, ◌++◌, arith, ltb, leb, if◌then◌else◌, length, length-set, get_or, set, get_or-set_self,
  get_or-set_ne, drop, Bool-cases,
}
use tnc640unix.Rtos.State.{Msg, Queue, no_msg, qslots}
use tnc640unix.Rtos.Queues.Ring.{used, make_room, slot_of, append, enqueue, front, dequeue}

-- The `n` messages from position `p` on.
abbrev pub window : List Msg → ℕ → ℕ → List Msg
window ms p zero = []
window ms p (suc n) = get_or ms (slot_of p) no_msg ∷ window ms (p + 1) n

-- The unread messages, oldest first.
abbrev pub contents : Queue → List Msg
contents q = window q.msg q.head (q.tail - q.head)

-- A ring whose counters have not wrapped.
pub record RingOk (q : Queue) : Type 0 where
  pub ordered : q.head ≤ q.tail
  pub bounded : q.tail ≤ q.head + 12
  pub low : q.tail < 2 ^ 32
  pub slots : length q.msg ≡ 12

-- The FIFO: at most QSLOTS messages, the oldest one dropped for room.
pub push : Msg → List Msg → List Msg
push m xs = (if leb qslots (length xs) then drop 1 xs else xs) ++ (m ∷ [])

pub push_empty : (m : Msg) → push m [] ≡ m ∷ []
unfolding push
push_empty m = refl

pub length-window : (ms : List Msg) (p n : ℕ) → length (window ms p n) ≡ n
length-window ms p zero = refl
length-window ms p (suc n) = ap suc (length-window ms (p + 1) n)

-- A write to a slot ahead of the window leaves it.
window-set :
    (ms : List Msg) (t : ℕ) (m : Msg) (p n : ℕ)
    → p + n ≤ t
    → t < p + 12
    → window (set ms (slot_of t) m) p n ≡ window ms p n
window-set ms t m p zero le lt = refl
window-set ms t m p (suc n) le lt = λ i.
    get_or-set_ne ms (slot_of t) (slot_of p) m no_msg (λ e. omega arith) i
    ∷ window-set ms t m (p + 1) n (omega arith) (omega arith) i

window-snoc :
    (ms : List Msg) (p n : ℕ)
    → window ms p (suc n) ≡ window ms p n ++ (get_or ms (slot_of (p + n)) no_msg ∷ [])
window-snoc ms p zero = ap (λ k. get_or ms (slot_of k) no_msg ∷ []) (omega arith)
window-snoc ms p (suc n) = ap (◌∷◌ (get_or ms (slot_of p) no_msg)) (
    window-snoc ms (p + 1) n
    ∙ ap (λ k. window ms (p + 1) n ++ (get_or ms (slot_of k) no_msg ∷ [])) (omega arith))

-- The write of a message into a ring with a free slot.
pub append-contents :
    (m : Msg) (q : Queue)
    → RingOk q
    → q.tail + 1 < 2 ^ 32
    → q.tail < q.head + 12
    → (contents (append m q) ≡ contents q ++ (m ∷ [])) × RingOk (append m q)
unfolding append
append-contents m q ok low room = (
  wide ∙ window-snoc (append m q).msg q.head (q.tail - q.head) ∙ (λ i. old i ++ (new i ∷ [])),
  record {
    ordered = omega (arith, ok.ordered);
    bounded = omega (arith, ok.ordered);
    low = omega arith;
    slots = omega (arith, length-set q.msg (slot_of q.tail) m, ok.slots);
  },
)
  where
    wide : contents (append m q) ≡ window (append m q).msg q.head (suc (q.tail - q.head))
    wide =
        ap (window (append m q).msg q.head) {y = suc (q.tail - q.head)} (omega (arith, ok.ordered))

    old : window (append m q).msg q.head (q.tail - q.head) ≡ contents q
    old = window-set q.msg q.tail m q.head (q.tail - q.head) (omega (arith, ok.ordered)) room

    new : get_or (append m q).msg (slot_of (q.head + (q.tail - q.head))) no_msg ≡ m
    new =
        ap (λ k. get_or (append m q).msg (slot_of k) no_msg) (omega (arith, ok.ordered))
        ∙ get_or-set_self q.msg (slot_of q.tail) m no_msg (omega (arith, ok.slots))

abbrev pub dropped : Queue → Queue
dropped q = record q { head = (q.head + 1) % 2 ^ 32; drop_warned = 1 }

pub make_room-free : (q : Queue) → RingOk q → q.tail < q.head + 12 → make_room q ≡ q
unfolding make_room
make_room-free q ok lt = ground (arith, ok.ordered, ok.low)

pub make_room-full : (q : Queue) → RingOk q → q.tail ≡ q.head + 12 → make_room q ≡ dropped q
unfolding make_room
make_room-full q ok full = ground (arith, ok.low)

push-free : (m : Msg) (xs : List Msg) → length xs < 12 → push m xs ≡ xs ++ (m ∷ [])
unfolding push
push-free m xs lt = ground arith

push-full : (m : Msg) (xs : List Msg) → length xs ≡ 12 → push m xs ≡ drop 1 xs ++ (m ∷ [])
unfolding push
push-full m xs full = ground arith

-- What a full ring keeps.
dropped-contents :
    (q : Queue)
    → RingOk q
    → q.tail ≡ q.head + 12
    → (contents (dropped q) ≡ drop 1 (contents q)) × RingOk (dropped q)
dropped-contents q ok full = (
  ap (λ k. window q.msg k (q.tail - k)) next
      ∙ ap (window q.msg (q.head + 1)) {y = 11} (omega arith)
      ∙ sym (ap (λ n. drop 1 (window q.msg q.head n)) {y = suc 11} (omega arith)),
  record {
    ordered = omega (arith, next);
    bounded = omega (arith, next);
    low = ok.low;
    slots = ok.slots;
  },
)
  where
    next : (q.head + 1) % 2 ^ 32 ≡ q.head + 1
    next = omega (arith, ok.low)

-- A send to a ring whose counters do not wrap pushes its message on the FIFO, which drops its
-- oldest message if QSLOTS messages are unread, and leaves such a ring.
pub enqueue-refines_push :
    (m : Msg) (q : Queue)
    → RingOk q
    → q.tail + 1 < 2 ^ 32
    → (contents (enqueue m q) ≡ push m (contents q)) × RingOk (enqueue m q)
unfolding enqueue
enqueue-refines_push m q ok low = elim (cases (q.tail - q.head)) [
  | inl free ↦
      let (e, ok') = append-contents m q ok low (omega (arith, ok.ordered)) in
      let same = make_room-free q ok (omega (arith, ok.ordered)) in
      (
        ap (λ r. contents (append m r)) same
            ∙ e
            ∙ sym (
                push-free m (contents q)
                  (omega (arith, length-window q.msg q.head (q.tail - q.head)))),
        subst (λ r. RingOk (append m r)) (sym same) ok',
      )
  | inr full ↦
      let all = full_eq full in
      let (kept, ok') = dropped-contents q ok all in
      let (e, ok'') = append-contents m (dropped q) ok' low (omega (arith, low)) in
      let same = make_room-full q ok all in
      (
        ap (λ r. contents (append m r)) same
            ∙ e
            ∙ ap (λ xs. xs ++ (m ∷ [])) kept
            ∙ sym (
                push-full m (contents q)
                  (omega (arith, length-window q.msg q.head (q.tail - q.head)))),
        subst (λ r. RingOk (append m r)) (sym same) ok'',
      )
]
  where
    cases : (n : ℕ) → (n < 12) ⊎ (12 ≤ n)
    cases n = elim (Bool-cases (ltb n 12)) [
      | inl h ↦ inl (ground arith)
      | inr h ↦ inr (ground arith)
    ]

    full_eq : 12 ≤ q.tail - q.head → q.tail ≡ q.head + 12
    full_eq h = omega (arith, ok.bounded)

-- The head of a ring that has a message is the oldest message of the FIFO, and the dequeue takes
-- that one.
pub dequeue-contents :
    (q : Queue)
    → RingOk q
    → q.head < q.tail
    → (contents q ≡ front q ∷ contents (dequeue q)) × RingOk (dequeue q)
unfolding dequeue
dequeue-contents q ok lt = (
  ap (window q.msg q.head) {y = suc (q.tail - (q.head + 1))} (omega arith)
      ∙ ap (λ k. front q ∷ window q.msg (q.head + 1) (q.tail - k)) (sym next)
      ∙ ap (λ k. front q ∷ window q.msg k (q.tail - (q.head + 1) % 2 ^ 32)) (sym next),
  record {
    ordered = omega (arith, next);
    bounded = omega (arith, next, ok.bounded);
    low = ok.low;
    slots = ok.slots;
  },
)
  where
    next : (q.head + 1) % 2 ^ 32 ≡ q.head + 1
    next = omega (arith, ok.low)

-- QSLOTS does not divide 2^32, so where the counters wrap the ring loses messages it has room for:
-- with the head 4 before the wrap and the tail behind it, 4 messages are unread, and a send
-- overwrites the oldest of them and counts it as unread all the same.
pub enqueue_wrap_collides :
    (m : Msg) (q : Queue)
    → q.head ≡ 2 ^ 32 - 4
    → q.tail ≡ 0
    → length q.msg ≡ 12
    → (used q ≡ 4) × (used (enqueue m q) ≡ 5) × (front (enqueue m q) ≡ m)
unfolding enqueue make_room append
enqueue_wrap_collides m q h t slots = (
  omega (arith, h, t),
  ap (λ r. used (append m r)) same ∙ omega (arith, h, t),
  ap (λ r. front (append m r)) same
      ∙ ap (λ k. get_or (set q.msg (slot_of q.tail) m) k no_msg) {y = slot_of q.tail}
          (omega (arith, h, t))
      ∙ get_or-set_self q.msg (slot_of q.tail) m no_msg (omega (arith, slots, t)),
)
  where
    same : make_room q ≡ q
    same = ground (arith, h, t)
