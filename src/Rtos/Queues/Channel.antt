-- ===== src/Rtos/Queues/Channel.antt =====
-- Q_send and Q_read between tasks: the FIFO that they keep, and the notifications of its owner.
use tnc640unix.Base.{
  ℕ, ◌+◌, ◌/◌, get32, ◌^◌, ◌≤◌, ◌<◌, ◌≡◌, refl, sym, ap, subst, ◌∙◌, inl, inr, true, false, Option,
  none, some, List, [], ◌∷◌, arith, ltb, if◌then◌else◌, ◌==◌, length, get_or, set, take,
  get_or-set_self, Bool-cases, Option-cases, ℤ, pos, negsuc,
}
use tnc640unix.Rtos.Table.{find_slot}
use tnc640unix.Rtos.Table.Ids.{free_slot}
use tnc640unix.Rtos.State.{Msg, Queue, Ctl, Caller, Env, no_queue}
use tnc640unix.Rtos.Tasks.{task_self, register, task_slot, is_used, task_id, is_thread}
use tnc640unix.Rtos.Events.{ev_send}
use tnc640unix.Rtos.Queues.{q_slot, queue_at, put_queue}
use tnc640unix.Rtos.Queues.Ring.{enqueue, front, dequeue}
use tnc640unix.Rtos.Queues.Send.{
  note_family, set_family, packet, renumber, deliver, notify, send_at, q_send, route, qmsgcap,
}
use tnc640unix.Rtos.Queues.Read.{Turn, message, fails, sleeps, take_front, read_at, q_read}
use tnc640unix.Rtos.Queues.Fifo.{
  contents, window, RingOk, push, enqueue-refines_push, dequeue-contents,
}

register-queues :
    (e : Env) (w : Caller) (c : Ctl) (o : Option ℕ) → (register e w c o).1.queues ≡ c.queues
unfolding register
register-queues e w c none = refl
register-queues e w c (some s) = refl

pub task_self-queues : (e : Env) (w : Caller) (c : Ctl) → (task_self e w c).1.queues ≡ c.queues
unfolding task_self
task_self-queues e w c = elim (Option-cases (find_slot (is_thread w) c.tasks)) [
  | inl h ↦ rw (h, task_self) (register-queues e w c (free_slot is_used task_id c.tasks))
  | inr (s, h) ↦ rw (h, task_self) refl
]

set_family-queues : (f : ℕ) (c : Ctl) (o : Option ℕ) → (set_family f c o).queues ≡ c.queues
set_family-queues f c none = refl
set_family-queues f c (some s) = refl

pub note_family-queues :
    (n : ℕ) (msg : List ℕ) (s : ℕ) (c : Ctl) → (note_family n msg s c).queues ≡ c.queues
unfolding note_family
note_family-queues n msg s c =
    ground (arith, set_family-queues (get32 msg 0 / 2 ^ 16) c (task_slot n c))

ev_send-queues : (t bits : ℕ) (c : Ctl) → (ev_send t bits c).1.queues ≡ c.queues
unfolding ev_send
ev_send-queues t bits c = ground arith

notify-queues : (q : Queue) (c : Ctl) → (notify q c).queues ≡ c.queues
unfolding notify
notify-queues q c = ground (arith, ev_send-queues q.owner q.notify_bits c)

-- Without the serial numbers, a delivery is a write to the ring.
deliver-enqueue :
    (e : Env) (n mode : ℕ) (body : List ℕ) (q : Queue)
    → e.wm_serial_fix ≡ false
    → deliver e n mode body q ≡ enqueue (packet q.id n mode body) q
unfolding deliver renumber enqueue
deliver-enqueue e n mode body q off = ground arith

-- The segment as a send writes its message: the sender known and its family recorded.
abbrev pub noted : Env → Caller → ℕ → List ℕ → Ctl → Ctl
noted e w s msg c = note_family (task_self e w c).0 (take qmsgcap msg) s (task_self e w c).1

abbrev pub sent : Env → Caller → ℕ → List ℕ → ℕ → Ctl → Queue
sent e w s msg mode c =
    deliver e (task_self e w c).0 mode (take qmsgcap msg) (queue_at s (noted e w s msg c))

-- What `send_at` does to the queues.
send_at-queues :
    (e : Env) (w : Caller) (s : ℕ) (msg : List ℕ) (mode : ℕ) (c : Ctl)
    → (send_at e w s msg mode c).queues
      ≡ set c.queues s (deliver e (task_self e w c).0 mode (take qmsgcap msg) (queue_at s c))
unfolding send_at
send_at-queues e w s msg mode c =
    notify-queues (sent e w s msg mode c) (put_queue s (sent e w s msg mode c) (noted e w s msg c))
    ∙ ap
        (λ qs.
          set qs s (deliver e (task_self e w c).0 mode (take qmsgcap msg) (get_or qs s no_queue)))
        (note_family-queues (task_self e w c).0 (take qmsgcap msg) s (task_self e w c).1
          ∙ task_self-queues e w c)

pub q_send-slot :
    (e : Env) (w : Caller) (id s r : ℕ) (msg : List ℕ) (mode : ℕ) (c : Ctl)
    → q_slot id c ≡ some s
    → route e s msg c ≡ r
    → q_send e w id msg mode c ≡ (pos 0, send_at e w r msg mode c)
unfolding q_send
q_send-slot e w id s r msg mode c at to =
    ap
      (λ o. elim o [
        | none ↦ (negsuc 8, c)
        | some s ↦ (pos 0, send_at e w (route e s msg c) msg mode c)
      ])
      at
    ∙ ap (λ k. (pos 0, send_at e w k msg mode c)) to

pub q_read-slot :
    (id s maxsize timeout : ℕ) (c : Ctl)
    → q_slot id c ≡ some s
    → q_read id maxsize timeout c ≡ read_at s maxsize timeout c
unfolding q_read
q_read-slot id s maxsize timeout c at =
    ap (λ o. elim o [ none ↦ (fails (negsuc 8), c) | some s ↦ read_at s maxsize timeout c ]) at

-- What a send of `msg` to the queue of slot `r` comes to: its answer, the queue's messages, and the
-- other queues.
abbrev pub Sends : Env → Caller → ℕ → List ℕ → ℕ → Ctl → ℤ × Ctl → Type 0
Sends e w r msg mode c p =
    (p.0 ≡ pos 0)
    × (contents (queue_at r p.1)
        ≡ push (packet (queue_at r c).id (task_self e w c).0 mode (take qmsgcap msg))
            (contents (queue_at r c)))
    × (p.1.queues ≡ set c.queues r (queue_at r p.1))

-- The queue that a send without the serial numbers writes to
pub send_at-queue :
    (e : Env) (w : Caller) (r : ℕ) (msg : List ℕ) (mode : ℕ) (c : Ctl)
    → r < length c.queues
    → e.wm_serial_fix ≡ false
    → let m = packet (queue_at r c).id (task_self e w c).0 mode (take qmsgcap msg) in
      ((send_at e w r msg mode c).queues ≡ set c.queues r (enqueue m (queue_at r c)))
      × (queue_at r (send_at e w r msg mode c) ≡ enqueue m (queue_at r c))
send_at-queue e w r msg mode c inside off = (all, new)
  where
    m : Msg
    m = packet (queue_at r c).id (task_self e w c).0 mode (take qmsgcap msg)

    all : (send_at e w r msg mode c).queues ≡ set c.queues r (enqueue m (queue_at r c))
    all =
        send_at-queues e w r msg mode c
        ∙ ap (set c.queues r)
            (deliver-enqueue e (task_self e w c).0 mode (take qmsgcap msg) (queue_at r c) off)

    new : queue_at r (send_at e w r msg mode c) ≡ enqueue m (queue_at r c)
    new =
        ap (λ qs. get_or qs r no_queue) all
        ∙ get_or-set_self c.queues r (enqueue m (queue_at r c)) no_queue inside

-- A send to a queue that exists, where the queue that routing chooses has a ring that has not
-- wrapped, without the serial numbers of window-manager queues: it answers 0, the chosen queue has
-- the message (its first QMSGCAP bytes, under its id, the sender's task id, the mode and the size)
-- pushed on its FIFO, and no other queue changes.
pub q_send-pushes :
    (e : Env) (w : Caller) (id s r : ℕ) (msg : List ℕ) (mode : ℕ) (c : Ctl)
    → q_slot id c ≡ some s
    → route e s msg c ≡ r
    → r < length c.queues
    → RingOk (queue_at r c)
    → (queue_at r c).tail + 1 < 2 ^ 32
    → e.wm_serial_fix ≡ false
    → Sends e w r msg mode c (q_send e w id msg mode c)
q_send-pushes e w id s r msg mode c at to inside ok low off =
    let m = packet (queue_at r c).id (task_self e w c).0 mode (take qmsgcap msg) in
    let (all, new) = send_at-queue e w r msg mode c inside off in
    subst (Sends e w r msg mode c) (sym (q_send-slot e w id s r msg mode c at to)) (
      refl,
      ap contents new ∙ (enqueue-refines_push m (queue_at r c) ok low).0,
      all ∙ ap (set c.queues r) (sym new),
    )

-- A read of a FIFO: its answer and what it leaves.
pub fifo_read : ℕ → ℕ → ℕ → List Msg → Turn × List Msg
fifo_read maxsize timeout tail [] = (if timeout == 0 then fails (negsuc 52) else sleeps tail, [])
fifo_read maxsize timeout tail (m ∷ ms) =
    if ltb maxsize (length m.body) then (fails (negsuc 11), m ∷ ms) else (message m, ms)

take_front-queues :
    (s : ℕ) (c : Ctl) → (take_front s c).queues ≡ set c.queues s (dequeue (queue_at s c))
unfolding take_front
take_front-queues s c =
    ground (arith, notify-queues (dequeue (queue_at s c)) (put_queue s (dequeue (queue_at s c)) c))

pub read_at-message :
    (s maxsize timeout : ℕ) (c : Ctl)
    → (queue_at s c).head < (queue_at s c).tail
    → length (front (queue_at s c)).body ≤ maxsize
    → read_at s maxsize timeout c ≡ (message (front (queue_at s c)), take_front s c)
unfolding read_at
read_at-message s maxsize timeout c some_left fits = ground arith

read_at-too_big :
    (s maxsize timeout : ℕ) (c : Ctl)
    → (queue_at s c).head < (queue_at s c).tail
    → maxsize < length (front (queue_at s c)).body
    → read_at s maxsize timeout c ≡ (fails (negsuc 11), c)
unfolding read_at
read_at-too_big s maxsize timeout c some_left big = ground arith

read_at-empty :
    (s maxsize timeout : ℕ) (c : Ctl)
    → (queue_at s c).head ≡ (queue_at s c).tail
    → read_at s maxsize timeout c
      ≡ (if timeout == 0 then fails (negsuc 52) else sleeps (queue_at s c).tail, c)
unfolding read_at
read_at-empty s maxsize timeout c none_left = ground arith

abbrev pub Reads : ℕ → Turn × Ctl → Turn × List Msg → Type 0
Reads s got spec = (got.0 ≡ spec.0) × (contents (queue_at s got.1) ≡ spec.1)

pub fifo_read-message :
    (maxsize timeout tail : ℕ) (m : Msg) (ms : List Msg)
    → length m.body ≤ maxsize
    → fifo_read maxsize timeout tail (m ∷ ms) ≡ (message m, ms)
unfolding fifo_read
fifo_read-message maxsize timeout tail m ms fits = ground arith

fifo_read-too_big :
    (maxsize timeout tail : ℕ) (m : Msg) (ms : List Msg)
    → maxsize < length m.body
    → fifo_read maxsize timeout tail (m ∷ ms) ≡ (fails (negsuc 11), m ∷ ms)
unfolding fifo_read
fifo_read-too_big maxsize timeout tail m ms big = ground arith

-- A read of a queue that has messages.
Reads-some :
    (s maxsize timeout : ℕ) (c : Ctl)
    → s < length c.queues
    → (queue_at s c).head < (queue_at s c).tail
    → contents (queue_at s c) ≡ front (queue_at s c) ∷ contents (dequeue (queue_at s c))
    → Reads s
        (read_at s maxsize timeout c)
        (fifo_read maxsize timeout (queue_at s c).tail (contents (queue_at s c)))
Reads-some s maxsize timeout c inside some_left e =
    elim (Bool-cases (ltb maxsize (length (front q).body))) [
      | inl big ↦
          subst (λ p. Reads s p spec)
            (sym (read_at-too_big s maxsize timeout c some_left (ground arith)))
            (subst (λ p. Reads s (fails (negsuc 11), c) p)
              (sym (cut ∙ fifo_read-too_big maxsize timeout q.tail (front q) _ (ground arith)))
              (refl, e))
      | inr fits ↦
          subst (λ p. Reads s p spec)
            (sym (read_at-message s maxsize timeout c some_left (ground arith)))
            (subst (λ p. Reads s (message (front q), take_front s c) p)
              (sym (cut ∙ fifo_read-message maxsize timeout q.tail (front q) _ (ground arith)))
              (refl, ap contents left))
    ]
  where
    q : Queue
    q = queue_at s c

    spec : Turn × List Msg
    spec = fifo_read maxsize timeout q.tail (contents q)

    cut : spec ≡ fifo_read maxsize timeout q.tail (front q ∷ contents (dequeue q))
    cut = ap (fifo_read maxsize timeout q.tail) e

    left : queue_at s (take_front s c) ≡ dequeue q
    left =
        ap (λ qs. get_or qs s no_queue) (take_front-queues s c)
        ∙ get_or-set_self c.queues s (dequeue q) no_queue inside

Reads-none :
    (s maxsize timeout : ℕ) (c : Ctl)
    → (queue_at s c).head ≡ (queue_at s c).tail
    → Reads s
        (read_at s maxsize timeout c)
        (fifo_read maxsize timeout (queue_at s c).tail (contents (queue_at s c)))
unfolding fifo_read
Reads-none s maxsize timeout c none_left =
    subst (λ p. Reads s p (fifo_read maxsize timeout q.tail (contents q)))
      (sym (read_at-empty s maxsize timeout c none_left))
      (subst
        (λ xs.
          Reads s (if timeout == 0 then fails (negsuc 52) else sleeps q.tail, c)
            (fifo_read maxsize timeout q.tail xs))
        (sym empty) (refl, empty))
  where
    q : Queue
    q = queue_at s c

    empty : contents q ≡ []
    empty = ap (window q.msg q.head) {y = 0} (omega (arith, none_left))

-- A turn of a read on a ring that has not wrapped answers as the FIFO does, and leaves the ring
-- with what the FIFO leaves: the oldest message if it fits the buffer, -12 with nothing taken if
-- it does not, and on an empty queue -53 at once or a sleep.
pub q_read-refines_fifo :
    (id s maxsize timeout : ℕ) (c : Ctl)
    → q_slot id c ≡ some s
    → s < length c.queues
    → RingOk (queue_at s c)
    → Reads s
        (q_read id maxsize timeout c)
        (fifo_read maxsize timeout (queue_at s c).tail (contents (queue_at s c)))
q_read-refines_fifo id s maxsize timeout c at inside ok =
    subst (λ p. Reads s p (fifo_read maxsize timeout (queue_at s c).tail (contents (queue_at s c))))
      (sym (q_read-slot id s maxsize timeout c at))
      (elim (Bool-cases (ltb (queue_at s c).head (queue_at s c).tail)) [
        | inl h ↦
            let lt = below h in
            Reads-some s maxsize timeout c inside lt (dequeue-contents (queue_at s c) ok lt).0
        | inr h ↦ Reads-none s maxsize timeout c (same h)
      ])
  where
    below :
        ltb (queue_at s c).head (queue_at s c).tail ≡ true
        → (queue_at s c).head < (queue_at s c).tail
    below h = ground arith

    same :
        ltb (queue_at s c).head (queue_at s c).tail ≡ false
        → (queue_at s c).head ≡ (queue_at s c).tail
    same h = ground (arith, ok.ordered)
