-- ===== src/Rtos/Tests/Tasks.antt =====
-- The theorems on tasks, events and the T_create handshake at concrete tasks.
use tnc640unix.Base.{
  ℕ, zero, suc, ◌≡◌, refl, sym, ap, inl, inr, false, some, [], ◌∷◌, arith, get_elem?, List,
  replicate,
}
use tnc640unix.Rtos.Table.{find_slot}
use tnc640unix.Rtos.Table.Ids.{Ids-empty}
use tnc640unix.Rtos.State.{Task, Ctl, no_task, default_env}
use tnc640unix.Rtos.Tasks.{task_self, is_used, task_id}
use tnc640unix.Rtos.Tasks.Registry.{
  TasksOk, Registered, HasRoom, task_self-Registered, task_self-injective,
}
use tnc640unix.Rtos.Events.{returns, ev_turn, ev_send}
use tnc640unix.Rtos.Events.Delivery.{Woken, ev_send_wakes}
use tnc640unix.Rtos.Rendezvous.{Request, t_create}
use tnc640unix.Rtos.Rendezvous.Handover.{Handover}
use tnc640unix.Rtos.Tests.{first_thread, first_task, empty_segment, one_task}

no_thread : (i : ℕ) (t : Task) → get_elem? empty_segment.tasks i ≡ some t → t.used ≡ false
no_thread zero t h = sym (ap is_used (some_eq h))
  where
    some_eq : some no_task ≡ some t → no_task ≡ t
    some_eq e = cc
no_thread (suc zero) t h = sym (ap is_used (some_eq h))
  where
    some_eq : some no_task ≡ some t → no_task ≡ t
    some_eq e = cc
no_thread (suc (suc i)) t h = cc

pub empty_ok : TasksOk empty_segment
empty_ok = record {
  ids = Ids-empty is_used task_id 0x100 0x100 2 no_task refl;
  started = omega arith;
  threads = λ i j t u at _ ut _ _ _. cc (ut, no_thread i t at);
}

pub room : HasRoom first_thread empty_segment
unfolding find_slot
room = inr (0, refl)

room_left : HasRoom first_thread (task_self default_env first_thread empty_segment).1
unfolding find_slot task_self
room_left = inl (0, refl)

task_self-Registered_example :
    Registered default_env first_thread empty_segment
      (task_self default_env first_thread empty_segment)
task_self-Registered_example =
    task_self-Registered default_env first_thread empty_segment empty_ok (omega arith) room

task_self-injective_example :
    (first_thread.tgid ≡ first_thread.tgid) × (first_thread.tid ≡ first_thread.tid)
unfolding find_slot task_self
task_self-injective_example =
    task_self-injective default_env first_thread first_thread empty_segment empty_ok (omega arith)
      room room_left refl

-- The task with three events pending
abbrev pending_task : Ctl
pending_task = record one_task { tasks = record first_task { events = 0xb } ∷ no_task ∷ [] }

ev_send_wakes_example :
    let r = ev_turn 0 0x6 2 0xffffffff false (ev_send 0x100 4 pending_task).1 in
    (v : ℕ) × (r.0 ≡ returns v) × Woken 0 4 0x6 v pending_task r.1
unfolding find_slot
ev_send_wakes_example =
    ev_send_wakes 0x100 0 4 0x6 0xffffffff false pending_task refl (omega arith) (omega arith)

abbrev request : Request
request = record { parent = 0; ctx_dst = 1; arg_dst = 2; msgsize = 16 }

-- The segment behind the child's T_create, and the memory that T_start copies from
abbrev child : ℕ × Ctl
child = t_create default_env first_thread request empty_segment

abbrev zeros : ℕ → ℕ → List ℕ
zeros p n = replicate n 0
