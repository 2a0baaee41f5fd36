-- ===== src/Rtos/Dispatch/Switch.antt =====
-- The switch itself.
use tnc640unix.Base.{ℕ, ◌%◌, ◌||◌, Option, none, some, [], if◌then◌else◌, ◌==◌, pos, negsuc}
use tnc640unix.Rtos.Events.{ev_send}
use tnc640unix.Rtos.Signals.{as_send}
use tnc640unix.Rtos.Semaphores.{sem_make, sem_release}
use tnc640unix.Rtos.Queues.{q_create, q_delete}
use tnc640unix.Rtos.Regions.{reg_ident}
use tnc640unix.Rtos.Calls.{tm_wkafter, tm_event}
use tnc640unix.Rtos.Dispatch.Outcome.{
  Process, Shared, Block, sleeps, attaches, Result, answer, answered, answered_id, text_at,
}
use tnc640unix.Rtos.Dispatch.Handlers.{
  call_t_create, call_t_start, call_ev_receive, signalled, call_as_mask, call_as_read,
  call_sm_create, call_sm_ident, call_sm_request, call_q_create, call_q_ident, call_q_send,
  call_q_read, call_t_ident, call_t_name, call_p_name, call_p_ident, call_getenv,
}

-- The commands that answer without a parameter block: the calls that name the caller and the
-- creations go on, the others answer an error or 0.
unfoldable pub without_block : Process → ℕ → Shared → Result
unfolding call_t_ident call_p_ident sem_make q_create
without_block k lo s =
    if lo == 0x00 || lo == 0x02
    then answer (negsuc 0) s
    else if lo == 0x01
    then call_t_ident k 0 0 s
    else if lo == 0x10 || lo == 0x18 || lo == 0x19
    then answer (negsuc 6) s
    else if lo == 0x12 || lo == 0x0c || lo == 0x0d || lo == 0x0e
    then answer (negsuc 8) s
    else if lo == 0x13 || lo == 0x14
    then answer (negsuc 21) s
    else if lo == 0x15
    then answered_id s (sem_make [] 0 s.ctl)
    else if lo == 0x0a
    then answered_id s (q_create k.env k.caller (some []) 0 0 s.ctl)
    else if lo == 0x16 || lo == 0x22 || lo == 0x27
    then answer (negsuc 1) s
    else if lo == 0x0b
    then answer (negsuc 0) s
    else if lo == 0x29
    then call_p_ident k none s
    else answer (pos 0) s

-- The commands on tasks, events, signals and semaphores
unfoldable pub tasks_case : Process → ℕ → Block → Shared → Result → Result
tasks_case k lo p s rest =
    if lo == 0x00
    then call_t_create k p s
    else if lo == 0x01
    then call_t_ident k (p 0) (p 1) s
    else if lo == 0x02
    then call_t_start k p s
    else if lo == 0x09
    then call_t_name k p s
    else if lo == 0x10
    then answered s (ev_send (p 0) (p 1) s.ctl)
    else if lo == 0x11
    then call_ev_receive k p s
    else if lo == 0x12
    then signalled s [] (as_send k.env k.caller (p 0) (p 1) s.ctl)
    else if lo == 0x13
    then call_as_mask k p s
    else if lo == 0x14
    then call_as_read k p s
    else if lo == 0x15
    then call_sm_create k p s
    else if lo == 0x16
    then call_sm_ident k p s
    else if lo == 0x18
    then call_sm_request p s
    else if lo == 0x19
    then answered s (sem_release (p 0) (p 1) s.ctl)
    else rest

-- `case 0x1a` and `case 0x22`
unfoldable pub wkafter_case : Process → Block → Shared → Result
unfolding tm_wkafter
wkafter_case k p s =
    if p 0 == 0 then answer (pos 0) s else (sleeps (tm_wkafter k.wkafter_cap (p 0)), s)

unfoldable pub m_ident_case : Process → Block → Shared → Result
unfolding reg_ident
m_ident_case k p s =
    if p 0 == 0 then answer (negsuc 1) s else answered_id s (reg_ident (k.text (p 0)) s.ctl)

-- The commands on queues, timers, regions, the environment and processes; any other one succeeds.
unfoldable pub others_case : Process → ℕ → Block → Shared → Result
others_case k lo p s =
    if lo == 0x0a
    then call_q_create k p s
    else if lo == 0x0b
    then call_q_ident k p s
    else if lo == 0x0c
    then answered s (q_delete (p 0) s.ctl)
    else if lo == 0x0d
    then call_q_send k p s
    else if lo == 0x0e
    then call_q_read k p s
    else if lo == 0x1a
    then wkafter_case k p s
    else if lo == 0x1b || lo == 0x1d
    then answered s (tm_event k.timers_fire k.env k.caller (p 1) s.ctl)
    else if lo == 0x22
    then m_ident_case k p s
    else if lo == 0x23
    then (attaches (p 2), s)
    else if lo == 0x27
    then call_getenv k p s
    else if lo == 0x29
    then call_p_ident k (text_at k (p 0)) s
    else if lo == 0x2d
    then call_p_name k p s
    else answer (pos 0) s

-- `syscall(222, cmd, p)`, without the thread that Tm_evevery starts
unfoldable pub heroscall : Process → ℕ → Option Block → Shared → Result
unfolding without_block tasks_case others_case call_t_create call_t_start call_ev_receive
    call_as_mask call_as_read call_sm_create call_sm_ident call_sm_request call_q_create
    call_q_ident call_q_send call_q_read call_t_ident call_t_name call_p_name call_p_ident
    call_getenv ev_send as_send sem_release q_delete tm_event wkafter_case m_ident_case
heroscall k cmd none s = without_block k (cmd % 256) s
heroscall k cmd (some p) s = tasks_case k (cmd % 256) p s (others_case k (cmd % 256) p s)
