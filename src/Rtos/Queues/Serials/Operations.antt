-- ===== src/Rtos/Queues/Serials/Operations.antt =====
-- WM_SERIAL_FIX: the sends to a client of the window manager and its reads, and the numbers that a
-- send gives.
use tnc640unix.Base.{
  ℕ, zero, suc, ◌+◌, ◌%◌, ◌^◌, ◌≤◌, ◌<◌, ◌≡◌, Bool, true, false, List, [], ◌∷◌, arith,
  if◌then◌else◌, ◌==◌, length, get32, put32, get32-put32, ◌++◌,
}
use tnc640unix.Rtos.State.{Queue, Env, Msg}
use tnc640unix.Rtos.Queues.Send.{renumber, is_wmq, deliver}
use tnc640unix.Rtos.Queues.Ring.{front, dequeue, has_message}

-- The environment of an injected tick, and of a send by winmgr itself.
abbrev pub as_tick : Bool → Env → Env
as_tick b e = record e { in_wm_tick = b }

-- An event that winmgr or a tick sends to the queue, with its sender and mode, or a read by the client
pub data Operation : Type 0 where
  ticks : ℕ → ℕ → List ℕ → Operation
  events : ℕ → ℕ → List ℕ → Operation
  reads : Operation

-- A read where there is a message, and where there is none
unfoldable pub taken : Bool → Queue → List Msg × Queue
unfolding dequeue
taken true q = (front q ∷ [], dequeue q)
taken false q = ([], q)

-- One operation: the messages that the client gets, and the queue behind it
unfoldable pub operate : Env → Operation → Queue → List Msg × Queue
unfolding deliver taken
operate e (ticks sender mode body) q = ([], deliver (as_tick true e) sender mode body q)
operate e (events sender mode body) q = ([], deliver (as_tick false e) sender mode body q)
operate e reads q = taken (has_message q) q

unfoldable pub run : Env → List Operation → Queue → List Msg × Queue
unfolding operate
run e [] q = ([], q)
run e (o ∷ os) q = let (got, r) = operate e o q in let (later, t) = run e os r in (got ++ later, t)

-- The serials of messages
unfoldable pub marks : List Msg → List ℕ
marks [] = []
marks (m ∷ ms) = get32 m.body 4 ∷ marks ms

-- winmgr's own events carry the serials after `k`, without a gap.
unfoldable pub InOrder : ℕ → List Operation → Type 0
InOrder k [] = k ≡ k
InOrder k (ticks sender mode body ∷ os) = 8 ≤ length body × InOrder k os
InOrder k (events sender mode body ∷ os) =
    8 ≤ length body × (get32 body 4 ≡ (k + 1) % 2 ^ 32) × InOrder (k + 1) os
InOrder k (reads ∷ os) = InOrder k os

-- The client keeps up: each send finds a free slot in the ring, and a counter that does not wrap.
unfoldable pub KeepsUp : Env → List Operation → Queue → Type 0
unfolding operate
KeepsUp e [] q = q ≡ q
KeepsUp e (ticks sender mode body ∷ os) q =
    q.tail < q.head + 12
    × (q.tail + 1 < 2 ^ 32)
    × KeepsUp e os (operate e (ticks sender mode body) q).1
KeepsUp e (events sender mode body ∷ os) q =
    q.tail < q.head + 12
    × (q.tail + 1 < 2 ^ 32)
    × KeepsUp e os (operate e (events sender mode body) q).1
KeepsUp e (reads ∷ os) q = KeepsUp e os (operate e reads q).1

abbrev pub sends : List Operation → ℕ
sends [] = 0
sends (ticks sender mode body ∷ os) = 1 + sends os
sends (events sender mode body ∷ os) = 1 + sends os
sends (reads ∷ os) = sends os

-- `n` serials that follow `k`.
unfoldable pub following : ℕ → ℕ → List ℕ
following k zero = []
following k (suc n) = (k + 1) % 2 ^ 32 ∷ following (k + 1) n

-- What the queue's account says: `k` winmgr events and the ticks so far make up the last serial.
pub record Account (k last : ℕ) (q : Queue) : Type 0 where
  pub sum : (k + q.wm_tick_offset) % 2 ^ 32 ≡ last % 2 ^ 32
  pub stored : q.wm_last_serial ≡ last % 2 ^ 32
  pub fits : q.wm_tick_offset < 2 ^ 32

abbrev pub ticked : Queue → Queue
ticked q = record q {
  wm_last_serial = (q.wm_last_serial + 1) % 2 ^ 32;
  wm_tick_offset = (q.wm_tick_offset + 1) % 2 ^ 32;
}

pub renumber-tick :
    (e : Env) (body : List ℕ) (q : Queue)
    → e.wm_serial_fix ≡ true
    → is_wmq q.name ≡ true
    → 8 ≤ length body
    → renumber (as_tick true e) body q ≡ (put32 body 4 ((q.wm_last_serial + 1) % 2 ^ 32), ticked q)
unfolding renumber
renumber-tick e body q on wm long = ground arith

abbrev pub shifted : List ℕ → Queue → ℕ
shifted body q = (get32 body 4 + q.wm_tick_offset) % 2 ^ 32

pub renumber-event :
    (e : Env) (body : List ℕ) (q : Queue)
    → e.wm_serial_fix ≡ true
    → is_wmq q.name ≡ true
    → 8 ≤ length body
    → renumber (as_tick false e) body q ≡ (
      if q.wm_tick_offset == 0 then body else put32 body 4 (shifted body q),
      record q { wm_last_serial = shifted body q },
    )
unfolding renumber
renumber-event e body q on wm long = ground arith

pub shifted-serial :
    (body : List ℕ) (q : Queue)
    → 8 ≤ length body
    → get32 body 4 < 2 ^ 32
    → get32 (if q.wm_tick_offset == 0 then body else put32 body 4 (shifted body q)) 4
      ≡ shifted body q
shifted-serial body q long small =
    ground (arith, get32-put32 body 4 (shifted body q) (omega (arith, long)) (omega arith))
