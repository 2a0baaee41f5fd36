-- ===== src/Rtos/Tests/Calls.antt =====
-- The switch and its own calls at concrete segments.
use tnc640unix.Base.{
  ℕ, ◌≡◌, inr, ◌==◌, if◌then◌else◌, refl, true, false, none, some, List, [], ◌∷◌, arith, take,
  get_elem?, codes, pos, negsuc,
}
use tnc640unix.Rtos.Table.{find_slot}
use tnc640unix.Rtos.Names.{name_eq, after_first}
use tnc640unix.Rtos.State.{Task, Ctl, Env, Caller, default_env}
use tnc640unix.Rtos.Tasks.{task_self, register}
use tnc640unix.Rtos.Queues.{queue_at}
use tnc640unix.Rtos.Queues.Send.{c_string, packet, route, cfg_route, sk_route}
use tnc640unix.Rtos.Queues.Read.{message}
use tnc640unix.Rtos.Queues.Fifo.{RingOk}
use tnc640unix.Rtos.Acks.{Knobs, no_acks}
use tnc640unix.Rtos.Calls.{IdentKnobs, p_name, p_ident}
use tnc640unix.Rtos.Calls.Peers.{p_ident-p_name}
use tnc640unix.Rtos.Dispatch.Outcome.{Process, Shared, Block, answers, reads, answer}
use tnc640unix.Rtos.Dispatch.Switch.{heroscall}
use tnc640unix.Rtos.Dispatch.Deleted.{deleted_queue_refused}
use tnc640unix.Rtos.Dispatch.Handlers.{injections}
use tnc640unix.Rtos.Queues.Read.{fails}
use tnc640unix.Rtos.Tests.Names.{queues_ok}
use tnc640unix.Rtos.Dispatch.Pipeline.{Quiet, send_then_read}
use tnc640unix.Rtos.Shape.{Shaped}
use tnc640unix.Rtos.Shape.Runs
use tnc640unix.Rtos.Shape.Runs.{Action, calls, run, booted, ctl_sizes, run-Shaped}
use tnc640unix.Rtos.Tasks.Registry.{TasksOk, HasRoom, task_self-Registered}
use tnc640unix.Rtos.Tests.Tasks.{empty_ok}
use tnc640unix.Rtos.Tests.{empty_segment, first_thread, second_thread, one_queue}

abbrev no_knobs : Knobs
no_knobs = record {
  inject_evt_ack = false;
  inject_peer_ack = false;
  cm_grant = true;
  evterr_defer = true;
  inject_active_hw = false;
  active_hw_file = [];
}

abbrev no_stubs : IdentKnobs
no_stubs = record { pident_self = true; grf_stub = false }

abbrev its_memory : ℕ → ℕ → List ℕ
its_memory p n = take n (1 ∷ 2 ∷ 3 ∷ 4 ∷ [])

-- A process with no variable set
abbrev quiet : Process
quiet = record {
  env = default_env;
  knobs = no_knobs;
  ident = no_stubs;
  wkafter_cap = 3000;
  timers_fire = false;
  getenv = λ name. none;
  caller = first_thread;
  word = λ p. 0;
  text = λ p. [];
  bytes = its_memory;
}

abbrev shared : Shared
shared = record { ctl = one_queue; acks = no_acks }

-- Three bytes to the queue 0x300 in mode 5, and a read of it into 16 bytes
abbrev send_block : Block
send_block i =
    if i == 0
    then 0x9000
    else if i == 2
    then 3
    else if i == 4
    then 0x300
    else if i == 6
    then 5
    else 0

abbrev read_block : Block
read_block i = if i == 0 then 0xa000 else if i == 2 then 16 else if i == 7 then 0x300 else 0

quiet-Quiet : Quiet quiet
quiet-Quiet = record { no_ack = refl; no_evt_ack = refl; no_peer_ack = refl; no_serials = refl }

ring_ok : RingOk (queue_at 0 one_queue)
ring_ok = record { ordered = omega arith; bounded = omega arith; low = omega arith; slots = refl }

kept : route default_env 0 (1 ∷ 2 ∷ 3 ∷ []) one_queue ≡ 0
unfolding route cfg_route sk_route
kept = refl

send_then_read_example :
    let sent = heroscall quiet 0x0d (some send_block) shared in
    let m = packet 0x300 (task_self default_env first_thread one_queue).0 5 (1 ∷ 2 ∷ 3 ∷ []) in
    (sent.0 ≡ answers (pos 0) [] [])
    × ((heroscall quiet 0x0e (some read_block) sent.1).0 ≡ reads (message m) 0xa000 0)
unfolding find_slot
send_then_read_example =
    send_then_read quiet quiet send_block read_block 0 shared quiet-Quiet refl kept (omega arith)
      ring_ok (omega arith) refl refl (omega arith)

-- A process makes a queue, sends to it and reads it, and a read of slot 0 wakes up.
abbrev some_calls : List Action
some_calls =
    calls quiet 0x0a (some send_block)
    ∷ calls quiet 0x0d (some send_block)
    ∷ calls quiet 0x0e (some read_block)
    ∷ Runs.reads quiet 0 16 0xffffffff
    ∷ []

run-Shaped_example : Shaped ctl_sizes (run some_calls (booted no_acks)).ctl
run-Shaped_example = run-Shaped some_calls no_acks

abbrev delete_block : Block
delete_block i = 0x300

abbrev deleted_state : Shared
deleted_state = (heroscall quiet 0x0c (some delete_block) shared).1

deleted_queue_refused_example :
    ((heroscall quiet 0x0c (some delete_block) shared).0 ≡ answers (pos 0) [] [])
    × (heroscall quiet 0x0e (some read_block) deleted_state
        ≡ (reads (fails (negsuc 8)) (read_block 0) (read_block 4), deleted_state))
    × (heroscall quiet 0x0c (some delete_block) deleted_state ≡ answer (negsuc 8) deleted_state)
    × (heroscall quiet 0x0d (some send_block) deleted_state
        ≡ answer
            (negsuc 8)
            (injections quiet 0x300 (quiet.bytes (send_block 0) (send_block 2)) deleted_state))
unfolding find_slot
deleted_queue_refused_example =
    deleted_queue_refused quiet quiet delete_block read_block send_block 0 shared deleted_state refl
      queues_ok refl refl refl

-- The main thread of a process with a name, registered
abbrev naming : Env
naming = record default_env { pname_reg = true }

abbrev plc_main : Caller
plc_main = record { tgid = 7; tid = 7; self_pname = codes "~/plc" }

abbrev with_plc : Ctl
with_plc = (task_self naming plc_main empty_segment).1

with_plc-TasksOk : TasksOk with_plc
unfolding find_slot
with_plc-TasksOk =
    (task_self-Registered naming plc_main empty_segment empty_ok (omega arith) plc_room).ok
  where
    plc_room : HasRoom plc_main empty_segment
    plc_room = inr (0, refl)

p_ident-p_name_example :
    (u : Task) × (j : ℕ) × (get_elem? with_plc.tasks j ≡ some u)
    × (u.used ≡ true)
    × (name_eq u.pname (codes "~/plc") ≡ true)
    × (p_ident naming no_stubs second_thread
          (some (c_string (p_name second_thread 0x100 with_plc)))
          with_plc
        ≡ (u.id, with_plc))
unfolding find_slot task_self register after_first
p_ident-p_name_example =
    p_ident-p_name naming no_stubs second_thread 0x100 0 0 with_plc refl with_plc-TasksOk
      (λ e. omega arith) refl refl (record { short = omega arith; text = refl; uncut = refl })
