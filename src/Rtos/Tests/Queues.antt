-- ===== src/Rtos/Tests/Queues.antt =====
-- The queues' theorems at concrete queues.
use tnc640unix.Base.{◌-◌, ◌^◌, ◌≤◌, ◌≡◌, refl, [], ◌∷◌, arith, bit}
use tnc640unix.Rtos.Table.{find_slot}
use tnc640unix.Rtos.State.{Queue, default_env}
use tnc640unix.Rtos.Tasks.{task_self}
use tnc640unix.Rtos.Events.Delivery.{word}
use tnc640unix.Rtos.Queues.{queue_at}
use tnc640unix.Rtos.Queues.Ring.{used, enqueue, front}
use tnc640unix.Rtos.Queues.Send.{q_send, route, cfg_route, sk_route}
use tnc640unix.Rtos.Queues.Read.{q_read}
use tnc640unix.Rtos.Queues.Fifo.{
  contents, RingOk, push, enqueue-refines_push, enqueue_wrap_collides,
}
use tnc640unix.Rtos.Queues.Channel.{Sends, q_send-pushes, Reads, fifo_read, q_read-refines_fifo}
use tnc640unix.Rtos.Queues.Notify.{q_send_notifies}
use tnc640unix.Rtos.Tests.{first_thread, its_queue, one_queue, hello, two_messages}

abbrev ring_ok : RingOk its_queue
ring_ok = record { ordered = omega arith; bounded = omega arith; low = omega arith; slots = refl }

abbrev full_ok : RingOk (queue_at 0 two_messages)
full_ok = record { ordered = omega arith; bounded = omega arith; low = omega arith; slots = refl }

routed : route default_env 0 (1 ∷ 2 ∷ 3 ∷ []) one_queue ≡ 0
unfolding route cfg_route sk_route
routed = refl

q_send-pushes_example :
    Sends default_env first_thread 0
      (1 ∷ 2 ∷ 3 ∷ [])
      5
      one_queue
      (q_send default_env first_thread 0x300 (1 ∷ 2 ∷ 3 ∷ []) 5 one_queue)
unfolding find_slot
q_send-pushes_example =
    q_send-pushes default_env first_thread 0x300 0 0 (1 ∷ 2 ∷ 3 ∷ []) 5 one_queue refl routed
      (omega arith) ring_ok (omega arith) refl

q_read-refines_fifo_example :
    Reads 0 (q_read 0x300 2 0 two_messages) (fifo_read 2 0 2 (contents (queue_at 0 two_messages)))
unfolding find_slot
q_read-refines_fifo_example =
    q_read-refines_fifo 0x300 0 2 0 two_messages refl (omega arith) full_ok

enqueue-refines_push_example :
    (contents (enqueue hello its_queue) ≡ push hello (contents its_queue))
    × RingOk (enqueue hello its_queue)
enqueue-refines_push_example = enqueue-refines_push hello its_queue ring_ok (omega arith)

abbrev wrapped : Queue
wrapped = record its_queue { head = 2 ^ 32 - 4 }

enqueue_wrap_collides_example :
    (used wrapped ≡ 4)
    × (used (enqueue hello wrapped) ≡ 5)
    × (front (enqueue hello wrapped) ≡ hello)
enqueue_wrap_collides_example = enqueue_wrap_collides hello wrapped refl refl refl

q_send_notifies_example :
    bit 27 0x8000000
    ≤ bit 27 (word 0 (q_send default_env first_thread 0x300 (1 ∷ 2 ∷ 3 ∷ []) 5 one_queue).1)
unfolding find_slot task_self
q_send_notifies_example =
    q_send_notifies default_env first_thread 0x300 0 0 0 27 (1 ∷ 2 ∷ 3 ∷ []) 5 one_queue refl routed
      (omega arith) refl (omega arith)
