-- ===== src/Rtos/Shape/Runs.antt =====
-- Runs: the calls of all processes and the further turns of calls that wait, in any order.
use tnc640unix.Base.{ℕ, Bool, Option, List, [], ◌∷◌}
use tnc640unix.Rtos.State.{ctl_init, max_task, max_sem, max_q, max_reg}
use tnc640unix.Rtos.Events.{ev_turn}
use tnc640unix.Rtos.Semaphores.{request_at}
use tnc640unix.Rtos.Queues.Read.{woken}
use tnc640unix.Rtos.Acks.{Acks}
use tnc640unix.Rtos.Dispatch.Outcome.{Process, Shared, Block}
use tnc640unix.Rtos.Dispatch.Handlers.{after_read}
use tnc640unix.Rtos.Dispatch.Switch.{heroscall}
use tnc640unix.Rtos.Shape.{Sizes, Shaped, fresh-Shaped}
use tnc640unix.Rtos.Shape.Kernel.{ev_turn-Shaped}
use tnc640unix.Rtos.Shape.Semaphores.{request_at-Shaped}
use tnc640unix.Rtos.Shape.Messages.{woken-Shaped}
use tnc640unix.Rtos.Shape.Calls.{Keeps, after_read-Shaped}
use tnc640unix.Rtos.Shape.Switch.{heroscall-Shaped}

-- A call of a process; or the next turn of an Ev_receive, an Sm_request or a Q_read that slept on
-- the slot given first
pub data Action : Type 0 where
  calls : Process → ℕ → Option Block → Action
  receives : ℕ → ℕ → ℕ → ℕ → Bool → Action
  requests : ℕ → ℕ → ℕ → Action
  reads : Process → ℕ → ℕ → ℕ → Action

unfoldable pub act : Action → Shared → Shared
unfolding heroscall ev_turn request_at woken
act (calls k cmd p) s = (heroscall k cmd p s).1
act (receives i want cond timeout expired) s = record s {
  ctl = (ev_turn i want cond timeout expired s.ctl).1;
}
act (requests i units timeout) s = record s { ctl = (request_at i units timeout s.ctl).1 }
act (reads k i maxsize timeout) s =
    let (t, c) = woken i maxsize timeout s.ctl in after_read k t (record s { ctl = c })

unfoldable pub run : List Action → Shared → Shared
unfolding act
run [] s = s
run (m ∷ ms) s = run ms (act m s)

-- The sizes of the tables that `ctl_init` lays out
abbrev pub ctl_sizes : Sizes
ctl_sizes = record {
  task_slots = max_task;
  sem_slots = max_sem;
  queue_slots = max_q;
  region_slots = max_reg;
}

-- A process whose lists are as given, on the segment that `ctl_init` leaves
abbrev pub booted : Acks → Shared
booted a = record { ctl = ctl_init; acks = a }

act-Shaped : (z : Sizes) (m : Action) (s : Shared) → Keeps z s → Keeps z (act m s)
unfolding act
act-Shaped z (calls k cmd p) s h = heroscall-Shaped z k cmd p s h
act-Shaped z (receives i want cond timeout expired) s h =
    ev_turn-Shaped z i want cond timeout expired s.ctl h
act-Shaped z (requests i units timeout) s h = request_at-Shaped z i units timeout s.ctl h
act-Shaped z (reads k i maxsize timeout) s h =
    let woke = woken i maxsize timeout s.ctl in
    after_read-Shaped z k woke.0 (record s { ctl = woke.1 })
      (woken-Shaped z i maxsize timeout s.ctl h)

run-Keeps : (z : Sizes) (ms : List Action) (s : Shared) → Keeps z s → Keeps z (run ms s)
unfolding run
run-Keeps z [] s h = h
run-Keeps z (m ∷ ms) s h = run-Keeps z ms (act m s) (act-Shaped z m s h)

-- After any run of calls by any processes, and of further turns of calls that wait, from the segment
-- that `ctl_init` leaves, the segment has the shape of struct ctl: its tables keep their sizes, the
-- name of a task, semaphore or queue and the process name of a task have at most 31 characters, that
-- of a region at most 19, each queue's ring has QSLOTS slots, and the message in each slot at most
-- QMSGCAP bytes.
pub run-Shaped : (ms : List Action) (a : Acks) → Shaped ctl_sizes (run ms (booted a)).ctl
run-Shaped ms a = run-Keeps ctl_sizes ms (booted a) (fresh-Shaped ctl_sizes)
