-- ===== src/Rtos/Dispatch/Deleted.antt =====
-- Calls on a queue that has been deleted.
use tnc640unix.Base.{ℕ, ◌≡◌, refl, ap, ◌∙◌, none, some, [], pos, negsuc}
use tnc640unix.Rtos.State.{Ctl}
use tnc640unix.Rtos.Queues.{q_slot, q_delete}
use tnc640unix.Rtos.Queues.Send.{q_send}
use tnc640unix.Rtos.Queues.Read.{fails, q_read}
use tnc640unix.Rtos.Queues.Registry.{QueuesOk, q_delete_forgets}
use tnc640unix.Rtos.Dispatch.Outcome.{
  Process, Shared, Block, Result, answers, reads, answer, answered,
}
use tnc640unix.Rtos.Dispatch.Handlers.{call_q_send, call_q_read, injections}
use tnc640unix.Rtos.Dispatch.Switch.{heroscall, tasks_case, others_case}

-- The three calls through the switch
delete_call :
    (k : Process) (p : Block) (s : Shared)
    → heroscall k 0x0c (some p) s ≡ answered s (q_delete (p 0) s.ctl)
unfolding heroscall tasks_case others_case
delete_call k p s = refl

read_call :
    (k : Process) (p : Block) (s : Shared)
    → q_slot (p 7) s.ctl ≡ none
    → heroscall k 0x0e (some p) s ≡ (reads (fails (negsuc 8)) (p 0) (p 4), s)
unfolding heroscall tasks_case others_case call_q_read q_read
read_call k p s absent = rw (absent, q_read) refl

send_call :
    (k : Process) (p : Block) (s : Shared)
    → q_slot (p 4) s.ctl ≡ none
    → heroscall k 0x0d (some p) s ≡ answer (negsuc 8) (injections k (p 4) (k.bytes (p 0) (p 2)) s)
unfolding heroscall tasks_case others_case call_q_send q_send
send_call k p s absent = rw (absent, q_send) refl

delete_again : (id : ℕ) (c : Ctl) → q_slot id c ≡ none → q_delete id c ≡ (negsuc 8, c)
unfolding q_delete
delete_again id c absent = rw (absent, q_delete) refl

-- A process deletes a queue in a well-formed table, and is answered 0. From then on, in any state in
-- which no queue has got its id, each call that names the id is answered -9, by whatever process: a
-- Q_read and a second Q_delete change nothing, and all that a Q_send still does is to answer the
-- requests of clients whose peers are absent.
pub deleted_queue_refused :
    (k j : Process) (p r m : Block) (i : ℕ) (s u : Shared)
    → q_slot (p 0) s.ctl ≡ some i
    → QueuesOk s.ctl
    → q_slot (p 0) u.ctl ≡ q_slot (p 0) (heroscall k 0x0c (some p) s).1.ctl
    → r 7 ≡ p 0
    → m 4 ≡ p 0
    → ((heroscall k 0x0c (some p) s).0 ≡ answers (pos 0) [] [])
      × (heroscall j 0x0e (some r) u ≡ (reads (fails (negsuc 8)) (r 0) (r 4), u))
      × (heroscall j 0x0c (some p) u ≡ answer (negsuc 8) u)
      × (heroscall j 0x0d (some m) u
          ≡ answer (negsuc 8) (injections j (m 4) (j.bytes (m 0) (m 2)) u))
deleted_queue_refused k j p r m i s u at ok same er em =
    let (zero, gone, _) = q_delete_forgets (p 0) i s.ctl at ok in
    let absent : q_slot (p 0) u.ctl ≡ none =
      same ∙ ap (λ (o : Result). q_slot (p 0) o.1.ctl) (delete_call k p s) ∙ gone in
    (
      ap (λ (o : Result). o.0) (delete_call k p s) ∙ ap (λ z. answers z [] []) zero,
      read_call j r u (ap (λ x. q_slot x u.ctl) er ∙ absent),
      delete_call j p u ∙ ap (answered u) (delete_again (p 0) u.ctl absent),
      send_call j m u (ap (λ x. q_slot x u.ctl) em ∙ absent),
    )
