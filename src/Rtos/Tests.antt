-- ===== src/Rtos/Tests.antt =====
-- Test data for the segment's components, and the children that apply its theorems to it.
mod Tasks
mod Signals
mod Semaphores
mod Queues
mod Names
mod Acks
mod Calls
mod Evdev
use tnc640unix.Base.{ℕ, true, [], ◌∷◌, codes}
use tnc640unix.Rtos.State.{
  Task, Sem, Msg, Queue, Ctl, Caller, Env, no_task, no_queue, no_msg, fresh, default_env,
}

-- Two threads of one process
abbrev pub first_thread : Caller
first_thread = record { tgid = 7; tid = 7; self_pname = [] }

abbrev pub second_thread : Caller
second_thread = record { tgid = 7; tid = 8; self_pname = [] }

-- The first of them, registered
abbrev pub first_task : Task
first_task = record no_task { used = true; id = 0x100; tgid = 7; tid = 7 }

abbrev pub empty_segment : Ctl
empty_segment = fresh 2 2 2 2

abbrev pub one_task : Ctl
one_task = record empty_segment { next_task = 0x101; tasks = first_task ∷ no_task ∷ [] }

-- A queue of that task, which notifies it
abbrev pub its_queue : Queue
its_queue = record no_queue {
  used = true;
  id = 0x300;
  name = codes "QStartUp";
  owner = 0x100;
  notify_bits = 0x8000000;
}

abbrev pub one_queue : Ctl
one_queue = record one_task { next_q = 0x301; queues = its_queue ∷ no_queue ∷ [] }

abbrev pub hello : Msg
hello = record { body = 1 ∷ 2 ∷ 3 ∷ []; hdr0 = 0x300; hdr1 = 0x100; hdr2 = 0x30000 }

-- The same queue with two unread messages
abbrev pub two_messages : Ctl
two_messages = record one_queue {
  queues =
      record its_queue {
        tail = 2;
        msg =
            hello ∷ hello ∷ no_msg ∷ no_msg ∷ no_msg ∷ no_msg ∷ no_msg ∷ no_msg ∷ no_msg ∷ no_msg
            ∷ no_msg ∷ no_msg ∷ [];
      }
      ∷ no_queue
      ∷ [];
}
