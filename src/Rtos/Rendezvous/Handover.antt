-- ===== src/Rtos/Rendezvous/Handover.antt =====
-- A thread from its T_create to its parent's T_start: what it gets, and when it runs.
use tnc640unix.Base.{ℕ, ◌≤◌, ◌≡◌, ◌≢◌, true, some, List, if◌then◌else◌, ◌==◌, ℤ, pos}
use tnc640unix.Rtos.State.{Ctl}
use tnc640unix.Rtos.Tasks.{task_slot, task_at}
use tnc640unix.Rtos.Rendezvous.{Request, may_run, copied, Stores, handed}

-- The entry `s` of the child `id` says what its request says, and the child waits.
pub record Parked (r : Request) (id s : ℕ) (d : Ctl) : Type 0 where
  pub found : task_slot id d ≡ some s
  pub buffer : (task_at s d).ctx_dst ≡ r.ctx_dst
  pub place : (task_at s d).arg_dst ≡ r.arg_dst
  pub room : (task_at s d).msgsize ≡ r.msgsize
  pub waits : (task_at s d).started ≡ 0

-- Between `d` and `g` nobody has touched what the waiting child `id` asked for.
pub record Undisturbed (id : ℕ) (d g : Ctl) : Type 0 where
  pub lookup : task_slot id g ≡ task_slot id d
  pub buffer : (s : ℕ) → task_slot id d ≡ some s → (task_at s g).ctx_dst ≡ (task_at s d).ctx_dst
  pub place : (s : ℕ) → task_slot id d ≡ some s → (task_at s g).arg_dst ≡ (task_at s d).arg_dst
  pub room : (s : ℕ) → task_slot id d ≡ some s → (task_at s g).msgsize ≡ (task_at s d).msgsize
  pub waits : (s : ℕ) → task_slot id d ≡ some s → (task_at s g).started ≡ (task_at s d).started

-- What T_start does in `g` for the child of the entry `s`, in terms of the child's own request.
pub record Handover (r : Request) (bytes : ℕ → ℕ → List ℕ) (size src s : ℕ) (g : Ctl)
    (o : ℤ × Stores × Ctl) : Type 0 where
  pub success : o.0 ≡ pos 0
  pub stores : o.1 ≡ handed bytes r.ctx_dst r.arg_dst r.msgsize size src
  pub fits : copied size r.msgsize ≤ size
  pub fits_buffer : copied size r.msgsize ≤ (if r.msgsize == 0 then size else r.msgsize)
  pub runs : may_run s o.2 ≡ true
  pub entry : task_at s o.2 ≡ record (task_at s g) { started = 1 }
  pub others : (j : ℕ) → s ≢ j → task_at j o.2 ≡ task_at j g
  pub rest : o.2 ≡ record g { tasks = o.2.tasks }
