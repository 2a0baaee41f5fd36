-- ===== src/Rtos/Queues/Ring.antt =====
-- The message ring of a queue, QSLOTS slots under two free-running uint32_t counters: the room
-- that Q_send makes, its write, and the dequeue of Q_read.
use tnc640unix.Base.{ℕ, ◌+◌, ◌-◌, ◌%◌, ◌^◌, Bool, if◌then◌else◌, ◌==◌, leb, get_or, set, not}
use tnc640unix.Rtos.State.{Msg, Queue, no_msg, qslots}

-- `q->tail-q->head`
abbrev pub used : Queue → ℕ
used q = (q.tail + 2 ^ 32 - q.head) % 2 ^ 32

-- A full queue drops its oldest message.
unfoldable pub make_room : Queue → Queue
make_room q =
    if leb qslots (used q) then record q { head = (q.head + 1) % 2 ^ 32; drop_warned = 1 } else q

-- The slot that a position of the ring stands in
abbrev pub slot_of : ℕ → ℕ
slot_of p = p % qslots

-- The write into the tail's slot and the publication of it
unfoldable pub append : Msg → Queue → Queue
append m q = record q { msg = set q.msg (slot_of q.tail) m; tail = (q.tail + 1) % 2 ^ 32 }

unfoldable pub enqueue : Msg → Queue → Queue
unfolding make_room append
enqueue m q = append m (make_room q)

-- The message at the head
abbrev pub front : Queue → Msg
front q = get_or q.msg (slot_of q.head) no_msg

-- `q->tail!=q->head`
abbrev pub has_message : Queue → Bool
has_message q = not (q.tail == q.head)

unfoldable pub dequeue : Queue → Queue
dequeue q = record q { head = (q.head + 1) % 2 ^ 32 }
