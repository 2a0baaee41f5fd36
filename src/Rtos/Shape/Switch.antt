-- ===== src/Rtos/Shape/Switch.antt =====
-- The switch keeps the shape of the segment.
use tnc640unix.Base.{ℕ, ◌%◌, ◌==◌, ◌||◌, Bool, true, false, Option, none, some, [], if◌then◌else◌}
use tnc640unix.Rtos.Events.{ev_send}
use tnc640unix.Rtos.Signals.{as_send}
use tnc640unix.Rtos.Semaphores.{sem_release}
use tnc640unix.Rtos.Queues.{q_delete}
use tnc640unix.Rtos.Calls.{tm_event}
use tnc640unix.Rtos.Dispatch.Outcome.{Process, Shared, Block, Result, answered, attaches, text_at}
use tnc640unix.Rtos.Dispatch.Handlers
use tnc640unix.Rtos.Dispatch.Switch.{
  heroscall, without_block, tasks_case, others_case, wkafter_case, m_ident_case,
}
use tnc640unix.Rtos.Shape.{Sizes}
use tnc640unix.Rtos.Shape.Kernel
use tnc640unix.Rtos.Shape.Semaphores
use tnc640unix.Rtos.Shape.Queues
use tnc640unix.Rtos.Shape.Calls
use tnc640unix.Rtos.Shape.Calls.{Keeps, KeepsAfter, branches}

-- The same, as a predicate that does not compute
pub record Kept (z : Sizes) (r : Result) : Type 0 where
  pub shape : KeepsAfter z r

-- A case of the switch and the cases behind it
case_or :
    (z : Sizes) (t : Bool) (x y : Result) → KeepsAfter z x → Kept z y → Kept z (if t then x else y)
case_or z true x y hx hy = record { shape = hx }
case_or z false x y hx hy = hy

module _ (z : Sizes) where
  tasks_case-Kept :
      (k : Process) (lo : ℕ) (p : Block) (s : Shared) (rest : Result)
      → Keeps z s
      → Kept z rest
      → Kept z (tasks_case k lo p s rest)
  unfolding tasks_case Handlers.call_t_ident Handlers.call_t_start Handlers.call_sm_create
      Handlers.call_sm_request
  tasks_case-Kept k lo p s rest h hr =
      case_or z (lo == 0x00) (Handlers.call_t_create k p s) _ (Calls.call_t_create-Shaped z k p s h)
        (case_or z (lo == 0x01) (Handlers.call_t_ident k (p 0) (p 1) s) _
          (Calls.t_ident-Shaped z k.env k.caller (p 0) (p 1) s.ctl h)
          (case_or z (lo == 0x02) (Handlers.call_t_start k p s) _
            (Kernel.t_start-Shaped z k.bytes (p 4) (p 0) (p 2) s.ctl h)
            (case_or z (lo == 0x09) (Handlers.call_t_name k p s) _
              (Calls.call_t_name-Shaped z k p s h)
              (case_or z (lo == 0x10) (answered s (ev_send (p 0) (p 1) s.ctl)) _
                (Kernel.ev_send-Shaped z (p 0) (p 1) s.ctl h)
                (case_or z (lo == 0x11) (Handlers.call_ev_receive k p s) _
                  (Calls.call_ev_receive-Shaped z k p s h)
                  (case_or z (lo == 0x12)
                    (Handlers.signalled s [] (as_send k.env k.caller (p 0) (p 1) s.ctl)) _
                    (Kernel.as_send-Shaped z k.env k.caller (p 0) (p 1) s.ctl h)
                    (case_or z (lo == 0x13) (Handlers.call_as_mask k p s) _
                      (Calls.call_as_mask-Shaped z k p s h)
                      (case_or z (lo == 0x14) (Handlers.call_as_read k p s) _
                        (Calls.call_as_read-Shaped z k p s h)
                        (case_or z (lo == 0x15) (Handlers.call_sm_create k p s) _
                          (Semaphores.sem_make-Shaped z (if p 0 == 0 then [] else k.text (p 0))
                            (p 2) s.ctl h)
                          (case_or z (lo == 0x16) (Handlers.call_sm_ident k p s) _
                            (Calls.call_sm_ident-Shaped z k p s h)
                            (case_or z (lo == 0x18) (Handlers.call_sm_request p s) _
                              (Semaphores.sem_request-Shaped z (p 0) (p 1) (p 2) s.ctl h)
                              (case_or z (lo == 0x19) (answered s (sem_release (p 0) (p 1) s.ctl)) _
                                (Semaphores.sem_release-Shaped z (p 0) (p 1) s.ctl h) hr))))))))))))

  others_case-Kept :
      (k : Process) (lo : ℕ) (p : Block) (s : Shared) → Keeps z s → Kept z (others_case k lo p s)
  unfolding others_case Handlers.call_p_ident
  others_case-Kept k lo p s h =
      case_or z (lo == 0x0a) (Handlers.call_q_create k p s) _ (Calls.call_q_create-Shaped z k p s h)
        (case_or z (lo == 0x0b) (Handlers.call_q_ident k p s) _
          (Calls.call_q_ident-Shaped z k p s h)
          (case_or z (lo == 0x0c) (answered s (q_delete (p 0) s.ctl)) _
            (Queues.q_delete-Shaped z (p 0) s.ctl h)
            (case_or z (lo == 0x0d) (Handlers.call_q_send k p s) _
              (Calls.call_q_send-Shaped z k p s h)
              (case_or z (lo == 0x0e) (Handlers.call_q_read k p s) _
                (Calls.call_q_read-Shaped z k p s h)
                (case_or z (lo == 0x1a) (wkafter_case k p s) _ (Calls.wkafter_case-Shaped z k p s h)
                  (case_or z (lo == 0x1b || lo == 0x1d)
                    (answered s (tm_event k.timers_fire k.env k.caller (p 1) s.ctl)) _
                    (Calls.tm_event-Shaped z k.timers_fire k.env k.caller (p 1) s.ctl h)
                    (case_or z (lo == 0x22) (m_ident_case k p s) _
                      (Calls.m_ident_case-Shaped z k p s h)
                      (case_or z (lo == 0x23) ((attaches (p 2), s)) _ (h) (
                        case_or z (lo == 0x27) (Handlers.call_getenv k p s) _
                          (Calls.call_getenv-Shaped z k p s h)
                          (case_or z (lo == 0x29) (Handlers.call_p_ident k (text_at k (p 0)) s) _
                            (Calls.p_ident-Shaped z k.env k.ident k.caller (text_at k (p 0)) s.ctl
                              h)
                            (case_or z (lo == 0x2d) (Handlers.call_p_name k p s) _
                              (Calls.call_p_name-Shaped z k p s h) (record { shape = h }))))))))))))

  without_block-Shaped :
      (k : Process) (lo : ℕ) (s : Shared) → Keeps z s → KeepsAfter z (without_block k lo s)
  unfolding without_block
  without_block-Shaped k lo s h =
      search
        (
          branches,
          Calls.t_ident-Shaped z k.env k.caller 0 0 s.ctl h,
          Semaphores.sem_make-Shaped z [] 0 s.ctl h,
          Queues.q_create-Shaped z k.env k.caller (some []) 0 0 s.ctl h,
          Calls.p_ident-Shaped z k.env k.ident k.caller none s.ctl h,
          h,
        )
        depth 20

  pub heroscall-Shaped :
      (k : Process) (cmd : ℕ) (o : Option Block) (s : Shared)
      → Keeps z s
      → KeepsAfter z (heroscall k cmd o s)
  unfolding heroscall
  heroscall-Shaped k cmd none s h = without_block-Shaped k (cmd % 256) s h
  heroscall-Shaped k cmd (some p) s h =
      (tasks_case-Kept k (cmd % 256) p s (others_case k (cmd % 256) p s) h
        (others_case-Kept k (cmd % 256) p s h)).shape
