-- ===== src/Rtos/Dispatch/Pipeline.antt =====
-- A message through the switch: from the memory of a sender to the read of a receiver.
use tnc640unix.Base.{
  ℕ, ◌+◌, ◌^◌, ◌≤◌, ◌<◌, ◌≡◌, refl, sym, ap, subst, ◌∙◌, false, ◌&&◌, some, List, [], ◌∷◌, arith,
  ◌==◌, length, length-set, take, get_elem?-eq-get_or, pos,
}
use tnc640unix.Rtos.Table.{find_slot-set}
use tnc640unix.Rtos.State.{Msg, Queue, Ctl, no_queue}
use tnc640unix.Rtos.Tasks.{task_self}
use tnc640unix.Rtos.Queues.{q_slot, queue_at}
use tnc640unix.Rtos.Queues.Ring.{enqueue}
use tnc640unix.Rtos.Queues.Send.{packet, qmsgcap, route, send_at}
use tnc640unix.Rtos.Queues.Read.{message, q_read}
use tnc640unix.Rtos.Queues.Fifo.{contents, RingOk, push, push_empty, enqueue-refines_push}
use tnc640unix.Rtos.Queues.Channel.{
  q_send-slot, q_read-refines_fifo, fifo_read, fifo_read-message, send_at-queue,
}
use tnc640unix.Rtos.Acks.Config.{inject_connect_ack, inject_forget_ack}
use tnc640unix.Rtos.Acks.Event.{inject_evt_connect_ack, inject_evt_error_reply}
use tnc640unix.Rtos.Acks.Peer.{inject_peer_connect_ack, inject_broadcast_register_reply}
use tnc640unix.Rtos.Dispatch.Outcome.{Process, Shared, Block, answers, reads, Result, answer}
use tnc640unix.Rtos.Dispatch.Handlers.{call_q_send, call_q_read, injections}
use tnc640unix.Rtos.Dispatch.Switch.{heroscall}

-- A process with none of the injections that answer for an absent peer, nor the serial numbers
pub record Quiet (k : Process) : Type 0 where
  pub no_ack : k.env.inject_ack ≡ false
  pub no_evt_ack : k.knobs.inject_evt_ack ≡ false
  pub no_peer_ack : k.knobs.inject_peer_ack ≡ false
  pub no_serials : k.env.wm_serial_fix ≡ false

injections-Quiet :
    (k : Process) (target : ℕ) (msg : List ℕ) (s : Shared) → Quiet k → injections k target msg s ≡ s
unfolding injections inject_connect_ack inject_forget_ack inject_evt_connect_ack
    inject_peer_connect_ack inject_evt_error_reply inject_broadcast_register_reply
injections-Quiet k target msg s q = simp (q.no_ack, q.no_evt_ack, q.no_peer_ack)

call_q_send-Quiet :
    (k : Process) (p : Block) (s : Shared) (i : ℕ)
    → Quiet k
    → q_slot (p 4) s.ctl ≡ some i
    → route k.env i (k.bytes (p 0) (p 2)) s.ctl ≡ i
    → call_q_send k p s
      ≡ answer
          (pos 0)
          (record s { ctl = send_at k.env k.caller i (k.bytes (p 0) (p 2)) (p 6) s.ctl })
unfolding call_q_send
call_q_send-Quiet k p s i q at own =
    rw (q_send-slot k.env k.caller (p 4) i i (k.bytes (p 0) (p 2)) (p 6) s.ctl at own) (
      ap (λ (t : Shared). answer (pos 0) t)
        (injections-Quiet k (p 4) (k.bytes (p 0) (p 2))
          (record s { ctl = send_at k.env k.caller i (k.bytes (p 0) (p 2)) (p 6) s.ctl }) q))

enqueue-id : (m : Msg) (q : Queue) → ((enqueue m q).used ≡ q.used) × ((enqueue m q).id ≡ q.id)
unfolding enqueue
enqueue-id m q = ground arith

-- The id of a queue finds its slot after a send to it.
q_slot-send_at :
    (k : Process) (id i : ℕ) (msg : List ℕ) (mode : ℕ) (c : Ctl)
    → k.env.wm_serial_fix ≡ false
    → i < length c.queues
    → q_slot id c ≡ some i
    → q_slot id (send_at k.env k.caller i msg mode c) ≡ some i
q_slot-send_at k id i msg mode c off inside at =
    let m = packet (queue_at i c).id (task_self k.env k.caller c).0 mode (take qmsgcap msg) in
    let there = get_elem?-eq-get_or c.queues i no_queue inside in
    let (used, same) = enqueue-id m (queue_at i c) in
    rw (send_at-queue k.env k.caller i msg mode c inside off).0 (
      find_slot-set (λ x. x.used && x.id == id) c.queues i (enqueue m (queue_at i c)) (queue_at i c)
        there (rw (used, same) refl)
      ∙ at)

-- The message that a send put into an empty queue is what a read answers.
read_back :
    (k : Process) (i id : ℕ) (msg : List ℕ) (mode maxsize timeout : ℕ) (c : Ctl)
    → Quiet k
    → q_slot id c ≡ some i
    → i < length c.queues
    → RingOk (queue_at i c)
    → (queue_at i c).tail + 1 < 2 ^ 32
    → contents (queue_at i c) ≡ []
    → length (take qmsgcap msg) ≤ maxsize
    → (q_read id maxsize timeout (send_at k.env k.caller i msg mode c)).0
      ≡ message (packet (queue_at i c).id (task_self k.env k.caller c).0 mode (take qmsgcap msg))
read_back k i id msg mode maxsize timeout c q at inside ok low empty fits =
    let m = packet (queue_at i c).id (task_self k.env k.caller c).0 mode (take qmsgcap msg) in
    let after = send_at k.env k.caller i msg mode c in
    let (all, new) = send_at-queue k.env k.caller i msg mode c inside q.no_serials in
    let (pushed, ring) = enqueue-refines_push m (queue_at i c) ok low in
    let still = q_slot-send_at k id i msg mode c q.no_serials inside at in
    let wide : i < length after.queues =
      omega (arith, ap length all, length-set c.queues i (enqueue m (queue_at i c)), inside) in
    let left : contents (queue_at i after) ≡ m ∷ [] =
      ap contents new ∙ pushed ∙ ap (push m) empty ∙ push_empty m in
    (q_read-refines_fifo id i maxsize timeout after still wide (subst RingOk (sym new) ring)).0
    ∙ ap (λ ms. (fifo_read maxsize timeout (queue_at i after).tail ms).0) left
    ∙ ap (λ t. t.0) (fifo_read-message maxsize timeout (queue_at i after).tail m [] fits)

-- Where a queue is empty, its ring well formed and not at the end of its counters, and routing keeps
-- it: a Q_send of a quiet process answers 0; and a Q_read of that queue, by whatever process, with a
-- buffer that the message fits, then answers that message: its first QMSGCAP bytes, with the queue's
-- id, the sender's task id, and the mode and size.
pub send_then_read :
    (k l : Process) (p r : Block) (i : ℕ) (s : Shared)
    → Quiet k
    → q_slot (p 4) s.ctl ≡ some i
    → route k.env i (k.bytes (p 0) (p 2)) s.ctl ≡ i
    → i < length s.ctl.queues
    → RingOk (queue_at i s.ctl)
    → (queue_at i s.ctl).tail + 1 < 2 ^ 32
    → contents (queue_at i s.ctl) ≡ []
    → r 7 ≡ p 4
    → length (take qmsgcap (k.bytes (p 0) (p 2))) ≤ r 2
    → let sent = heroscall k 0x0d (some p) s in
      let m =
        packet
          (queue_at i s.ctl).id
          (task_self k.env k.caller s.ctl).0
          (p 6)
          (take qmsgcap (k.bytes (p 0) (p 2))) in
      (sent.0 ≡ answers (pos 0) [] [])
      × ((heroscall l 0x0e (some r) sent.1).0 ≡ reads (message m) (r 0) (r 4))
unfolding heroscall
send_then_read k l p r i s q at own inside ok low empty same fits =
    let step = call_q_send-Quiet k p s i q at own in
    (
      ap (λ (t : Result). t.0) step,
      ap (λ (t : Result). (call_q_read l r t.1).0) step
          ∙ ap (λ t. reads t (r 0) (r 4))
              (rw same (
                read_back k i (p 4) (k.bytes (p 0) (p 2)) (p 6) (r 2) (r 6) s.ctl q at inside ok low
                  empty fits)),
    )
