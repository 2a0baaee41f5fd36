-- ===== src/Rtos/Shape/Messages.antt =====
-- Sending and reading messages keep the shape of the segment.
use tnc640unix.Base.{
  ℕ, refl, ◌/◌, ◌+◌, ◌%◌, ◌^◌, ◌≤◌, ◌∙◌, Option, none, some, List, arith, length, length-take,
  length-set, Every-set, take, length-put32, get32,
}
use tnc640unix.Rtos.State.{Ctl, Env, Caller, Queue, Msg}
use tnc640unix.Rtos.Tasks.{task_self, task_slot}
use tnc640unix.Rtos.Queues.{queue_at, put_queue}
use tnc640unix.Rtos.Queues.Ring.{make_room, append, slot_of, dequeue}
use tnc640unix.Rtos.Queues.Send.{
  qmsgcap, set_family, note_family, renumber, deliver, notify, send_at, q_send, route,
}
use tnc640unix.Rtos.Queues.Read.{take_front, read_at, q_read, woken}
use tnc640unix.Rtos.Shape.{Sizes, Shaped, QueueShape, MsgShape, queue_at-Shape, put_queue-Shaped}
use tnc640unix.Rtos.Shape.Kernel.{
  shapes, choose-Shaped, choose-keeps, lookup-Shaped, retask-Shaped, task_self-Shaped,
  ev_send-Shaped,
}
use tnc640unix.Rtos.Shape.Queues.{reaccount, rewrite-Shaped}

-- The ring
make_room-Shape : (q : Queue) → QueueShape q → QueueShape (make_room q)
unfolding make_room
make_room-Shape q h =
    choose-keeps QueueShape _ (record q { head = (q.head + 1) % 2 ^ 32; drop_warned = 1 }) q
      (record { name = h.name; slots = h.slots; bodies = h.bodies }) h

append-Shape : (m : Msg) (q : Queue) → MsgShape m → QueueShape q → QueueShape (append m q)
unfolding append
append-Shape m q short h = record {
  name = h.name;
  slots = length-set q.msg (slot_of q.tail) m ∙ h.slots;
  bodies = Every-set MsgShape q.msg (slot_of q.tail) m h.bodies short;
}

-- What a renumbering leaves: a body no longer than it was, and a queue of the shape
record Renumbered (n : ℕ) (r : List ℕ × Queue) : Type 0 where
  pub fits : length r.0 ≤ n
  pub account : QueueShape r.1

renumber-Shape :
    (e : Env) (body : List ℕ) (q : Queue)
    → QueueShape q
    → Renumbered (length body) (renumber e body q)
unfolding renumber
renumber-Shape e body q h = record {
  fits = grind (arith, length-put32);
  account = grind (arith, h, λ (r : Queue). reaccount q r);
}

deliver-Shape :
    (e : Env) (sender mode : ℕ) (body : List ℕ) (q : Queue)
    → length body ≤ qmsgcap
    → QueueShape q
    → QueueShape (deliver e sender mode body q)
unfolding deliver
deliver-Shape e sender mode body q short h =
    let sent = renumber-Shape e body (make_room q) (make_room-Shape q h) in
    append-Shape _ _ (omega (arith, sent.fits, short)) sent.account

module _ (z : Sizes) where
  set_family-Shaped : (f : ℕ) (c : Ctl) (o : Option ℕ) → Shaped z c → Shaped z (set_family f c o)
  set_family-Shaped f c none h = h
  set_family-Shaped f c (some s) h = retask-Shaped z c s _ refl refl h

  note_family-Shaped :
      (sender : ℕ) (msg : List ℕ) (s : ℕ) (c : Ctl)
      → Shaped z c
      → Shaped z (note_family sender msg s c)
  unfolding note_family
  note_family-Shaped sender msg s c h =
      choose-Shaped z _ _ _ (set_family-Shaped (get32 msg 0 / 2 ^ 16) c (task_slot sender c) h) h

  notify-Shaped : (q : Queue) (c : Ctl) → Shaped z c → Shaped z (notify q c)
  unfolding notify
  notify-Shaped q c h = choose-Shaped z _ _ _ (ev_send-Shaped z q.owner q.notify_bits c h) h

  pub send_at-Shaped :
      (e : Env) (w : Caller) (s : ℕ) (msg : List ℕ) (mode : ℕ) (c : Ctl)
      → Shaped z c
      → Shaped z (send_at e w s msg mode c)
  unfolding send_at
  send_at-Shaped e w s msg mode c h =
      let body = take qmsgcap msg in
      let own = task_self e w c in
      let f = note_family own.0 body s own.1 in
      let hf = note_family-Shaped own.0 body s own.1 (task_self-Shaped z e w c h) in
      let q = deliver e own.0 mode body (queue_at s f) in
      let hq =
        deliver-Shape e own.0 mode body (queue_at s f) (omega (arith, length-take qmsgcap msg))
          (queue_at-Shape z f hf s) in
      notify-Shaped q (put_queue s q f) (put_queue-Shaped z f hf s q hq)

  pub q_send-Shaped :
      (e : Env) (w : Caller) (id : ℕ) (msg : List ℕ) (mode : ℕ) (c : Ctl)
      → Shaped z c
      → Shaped z (q_send e w id msg mode c).1
  unfolding q_send
  q_send-Shaped e w id msg mode c h =
      lookup-Shaped z _ _ _ h (λ s. send_at-Shaped e w (route e s msg c) msg mode c h)

  take_front-Shaped : (s : ℕ) (c : Ctl) → Shaped z c → Shaped z (take_front s c)
  unfolding take_front dequeue
  take_front-Shaped s c h =
      let left = rewrite-Shaped z s (dequeue (queue_at s c)) c refl refl h in
      choose-Shaped z _ _ _ (notify-Shaped _ _ left) left

  pub read_at-Shaped :
      (s maxsize timeout : ℕ) (c : Ctl) → Shaped z c → Shaped z (read_at s maxsize timeout c).1
  unfolding read_at
  read_at-Shaped s maxsize timeout c h =
      let taken = take_front-Shaped s c h in search (shapes, taken, h)

  pub q_read-Shaped :
      (id maxsize timeout : ℕ) (c : Ctl) → Shaped z c → Shaped z (q_read id maxsize timeout c).1
  unfolding q_read
  q_read-Shaped id maxsize timeout c h =
      lookup-Shaped z _ _ _ h (λ s. read_at-Shaped s maxsize timeout c h)

  pub woken-Shaped :
      (s maxsize timeout : ℕ) (c : Ctl) → Shaped z c → Shaped z (woken s maxsize timeout c).1
  unfolding woken
  woken-Shaped s maxsize timeout c h =
      let again = read_at-Shaped s maxsize timeout c h in search (shapes, again, h)
