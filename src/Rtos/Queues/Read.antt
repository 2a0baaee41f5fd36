-- ===== src/Rtos/Queues/Read.antt =====
-- Q_read, one turn of its loop, and what it does when its sleep ends. The family filter, the wait
-- caps and the injection knobs are off by default and left out.
use tnc640unix.Base.{ℕ, ◌&&◌, not, none, some, if◌then◌else◌, ◌==◌, ltb, length, ℤ, negsuc}
use tnc640unix.Rtos.State.{Msg, Ctl}
use tnc640unix.Rtos.Queues.{q_slot, queue_at, put_queue}
use tnc640unix.Rtos.Queues.Ring.{front, has_message, dequeue}
use tnc640unix.Rtos.Queues.Send.{notify}

-- A message copied out with its header, an error, or a sleep on the tail's value.
pub data Turn : Type 0 where
  message : Msg → Turn
  fails : ℤ → Turn
  sleeps : ℕ → Turn

-- The dequeue, and the notification again while messages are left
unfoldable pub take_front : ℕ → Ctl → Ctl
take_front s c =
    let q = dequeue (queue_at s c) in
    if has_message q then notify q (put_queue s q c) else put_queue s q c

-- A turn of `q_read` on the queue of a slot.
unfoldable pub read_at : ℕ → ℕ → ℕ → Ctl → Turn × Ctl
unfolding take_front
read_at s maxsize timeout c =
    let q = queue_at s c in
    if has_message q
    then (if ltb maxsize (length (front q).body)
        then (fails (negsuc 11), c)
        else (message (front q), take_front s c))
    else if timeout == 0
    then (fails (negsuc 52), c)
    else (sleeps q.tail, c)

unfoldable pub q_read : ℕ → ℕ → ℕ → Ctl → Turn × Ctl
unfolding read_at
q_read id maxsize timeout c = elim (q_slot id c) [
  | none ↦ (fails (negsuc 8), c)
  | some s ↦ read_at s maxsize timeout c
]

-- The end of a sleep: a finite wait on a queue that is still empty fails, else the loop goes on.
unfoldable pub woken : ℕ → ℕ → ℕ → Ctl → Turn × Ctl
unfolding read_at
woken s maxsize timeout c =
    let q = queue_at s c in
    if not (timeout == 0xffffffff) && not (has_message q)
    then (fails (negsuc 52), c)
    else read_at s maxsize timeout c
