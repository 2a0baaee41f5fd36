-- ===== src/Rtos/Queues/Notify.antt =====
-- The notification of a queue's owner: on a send, and again on a read that leaves messages.
use tnc640unix.Base.{
  ℕ, ◌+◌, ◌/◌, ◌^◌, ◌≤◌, ◌<◌, ◌≡◌, ◌≢◌, refl, sym, ap, ◌∙◌, inl, inr, true, false, Option, none,
  some, List, arith, ◌==◌, length, length-set, get_or, take, bit, bit-bit_or, bit-zero, bit_or,
  get32, get_elem?-eq-get_or, get_elem?-lt, Bool-cases, Option-cases, ℤ,
}
use tnc640unix.Rtos.Table.{find_slot-set}
use tnc640unix.Rtos.Table.Ids.{id_slot-some}
use tnc640unix.Rtos.State.{Task, Queue, Ctl, Caller, Env, no_task, no_queue}
use tnc640unix.Rtos.Tasks.{task_self, task_slot, task_at, is_used, task_id}
use tnc640unix.Rtos.Events.{ev_send}
use tnc640unix.Rtos.Events.Delivery.{word, task_at-put}
use tnc640unix.Rtos.Queues.{q_slot, queue_at, put_queue}
use tnc640unix.Rtos.Queues.Ring.{make_room, append, front, dequeue}
use tnc640unix.Rtos.Queues.Send.{
  note_family, set_family, renumber, deliver, notify, send_at, q_send, route, qmsgcap,
}
use tnc640unix.Rtos.Queues.Read.{Turn, take_front, q_read}
use tnc640unix.Rtos.Queues.Fifo.{RingOk}
use tnc640unix.Rtos.Queues.Channel.{
  q_read-slot, read_at-message, q_send-slot, noted, sent, note_family-queues, task_self-queues,
}

ev_send-word :
    (task o bits : ℕ) (c : Ctl)
    → task_slot task c ≡ some o
    → o < length c.tasks
    → word o (ev_send task bits c).1 ≡ bit_or (word o c) bits
unfolding ev_send
ev_send-word task o bits c at inside =
    rw (at, ev_send) (ap (λ (t : Task). t.events) (task_at-put o _ c inside))

notify-ev_send :
    (q : Queue) (c : Ctl)
    → q.notify_bits ≢ 0
    → q.owner ≢ 0
    → notify q c ≡ (ev_send q.owner q.notify_bits c).1
unfolding notify
notify-ev_send q c some_bits owned = ground (arith, some_bits, owned)

-- A notification sets every notify bit in the word of an owner that is there.
notify-raises :
    (q : Queue) (c : Ctl) (o i : ℕ)
    → task_slot q.owner c ≡ some o
    → o < length c.tasks
    → q.owner ≢ 0
    → bit i q.notify_bits ≤ bit i (word o (notify q c))
notify-raises q c o i at inside owned = elim (Bool-cases (q.notify_bits == 0)) [
  | inl quiet ↦ omega (arith, bit-zero i, ap (bit i) (zero_bits quiet))
  | inr loud ↦ omega (
    arith,
    ap (λ d. bit i (word o d)) (notify-ev_send q c (not_loud loud) owned),
    ap (bit i) (ev_send-word q.owner o q.notify_bits c at inside),
    bit-bit_or i (word o c) q.notify_bits,
  )
]
  where
    zero_bits : (q.notify_bits == 0) ≡ true → q.notify_bits ≡ 0
    zero_bits h = ground arith

    not_loud : (q.notify_bits == 0) ≡ false → q.notify_bits ≢ 0
    not_loud h e = ground arith

take_front-notify :
    (s : ℕ) (c : Ctl)
    → (queue_at s c).head + 1 < (queue_at s c).tail
    → (queue_at s c).tail < 2 ^ 32
    → take_front s c ≡ notify (dequeue (queue_at s c)) (put_queue s (dequeue (queue_at s c)) c)
unfolding take_front dequeue
take_front-notify s c more low = ground arith

-- A read that takes a message and leaves another one behind sets the queue's notify bits in its
-- owner's event word again, so that the owner's next receive of them returns.
pub q_read_renotifies :
    (id s o maxsize timeout i : ℕ) (c : Ctl)
    → q_slot id c ≡ some s
    → RingOk (queue_at s c)
    → (queue_at s c).head + 1 < (queue_at s c).tail
    → length (front (queue_at s c)).body ≤ maxsize
    → (queue_at s c).owner ≢ 0
    → task_slot (queue_at s c).owner c ≡ some o
    → o < length c.tasks
    → bit i (queue_at s c).notify_bits ≤ bit i (word o (q_read id maxsize timeout c).1)
unfolding dequeue
q_read_renotifies id s o maxsize timeout i c at ok more fits owned slot inside = omega (
  arith,
  ap (λ (p : Turn × Ctl). bit i (word o p.1))
      (q_read-slot id s maxsize timeout c at
        ∙ read_at-message s maxsize timeout c (omega arith) fits),
  ap (λ d. bit i (word o d)) (take_front-notify s c more ok.low),
  notify-raises (dequeue (queue_at s c)) (put_queue s (dequeue (queue_at s c)) c) o i slot inside
      owned,
)

-- Recording a family keeps every task's slot, and the table's size.
set_family-task_slot :
    (f k : ℕ) (c : Ctl) (id : ℕ) → task_slot id (set_family f c (task_slot k c)) ≡ task_slot id c
set_family-task_slot f k c id = elim (Option-cases (task_slot k c)) [
  | inl e ↦ ap (λ r. task_slot id (set_family f c r)) e
  | inr (s, e) ↦
      let (x, at, u, same) = id_slot-some is_used task_id k c.tasks s e in
      ap (λ r. task_slot id (set_family f c r)) e
      ∙ find_slot-set _ c.tasks s _ (task_at s c)
          (get_elem?-eq-get_or c.tasks s no_task (get_elem?-lt c.tasks s at)) refl
]

note_family-task_slot :
    (n id : ℕ) (msg : List ℕ) (s : ℕ) (c : Ctl)
    → task_slot id (note_family n msg s c) ≡ task_slot id c
unfolding note_family
note_family-task_slot n id msg s c =
    ground (arith, set_family-task_slot (get32 msg 0 / 2 ^ 16) n c id)

set_family-size :
    (f : ℕ) (c : Ctl) (o : Option ℕ) → length (set_family f c o).tasks ≡ length c.tasks
set_family-size f c none = refl
set_family-size f c (some s) = length-set c.tasks s (record (task_at s c) { last_req_family = f })

note_family-size :
    (n : ℕ) (msg : List ℕ) (s : ℕ) (c : Ctl) → length (note_family n msg s c).tasks ≡ length c.tasks
unfolding note_family
note_family-size n msg s c =
    ground (arith, set_family-size (get32 msg 0 / 2 ^ 16) c (task_slot n c))

-- A delivery keeps whom to notify, and of what.
deliver-owner :
    (e : Env) (n mode : ℕ) (body : List ℕ) (q : Queue)
    → ((deliver e n mode body q).owner ≡ q.owner)
      × ((deliver e n mode body q).notify_bits ≡ q.notify_bits)
unfolding deliver renumber make_room append
deliver-owner e n mode body q = ground arith

-- A send sets the notify bits of the queue that its message goes to in the event word of that
-- queue's owner, where the queue has an owner that is a task.
pub q_send_notifies :
    (e : Env) (w : Caller) (id s r o i : ℕ) (msg : List ℕ) (mode : ℕ) (c : Ctl)
    → q_slot id c ≡ some s
    → route e s msg c ≡ r
    → (queue_at r c).owner ≢ 0
    → task_slot (queue_at r c).owner (task_self e w c).1 ≡ some o
    → o < length (task_self e w c).1.tasks
    → bit i (queue_at r c).notify_bits ≤ bit i (word o (q_send e w id msg mode c).1)
unfolding send_at
q_send_notifies e w id s r o i msg mode c at to owned slot inside = omega (
  arith,
  ap (λ (p : ℤ × Ctl). bit i (word o p.1)) (q_send-slot e w id s r msg mode c at to),
  ap (bit i) (keeps.1 ∙ ap (λ q. q.notify_bits) same),
  notify-raises (sent e w r msg mode c) (put_queue r (sent e w r msg mode c) f) o i
      (ap (λ k. task_slot k f) (keeps.0 ∙ ap (λ q. q.owner) same)
        ∙ note_family-task_slot n (queue_at r c).owner (take qmsgcap msg) r d
        ∙ slot)
      (omega (arith, inside, note_family-size n (take qmsgcap msg) r d))
      (λ z. owned (sym (keeps.0 ∙ ap (λ q. q.owner) same) ∙ z)),
)
  where
    n : ℕ
    n = (task_self e w c).0

    d : Ctl
    d = (task_self e w c).1

    f : Ctl
    f = noted e w r msg c

    same : queue_at r f ≡ queue_at r c
    same =
        ap (λ qs. get_or qs r no_queue)
          (note_family-queues n (take qmsgcap msg) r d ∙ task_self-queues e w c)

    keeps :
        ((sent e w r msg mode c).owner ≡ (queue_at r f).owner)
        × ((sent e w r msg mode c).notify_bits ≡ (queue_at r f).notify_bits)
    keeps = deliver-owner e n mode (take qmsgcap msg) (queue_at r f)
