-- ===== src/Rtos/Dispatch/Outcome.antt =====
-- What a call of the switch reads and what becomes of it. The parameter block is a function from
-- the index of a word.
use tnc640unix.Base.{ℕ, Bool, Option, none, some, List, [], ◌∷◌, if◌then◌else◌, ◌==◌, ℤ, signed32}
use tnc640unix.Rtos.State.{Ctl, Caller, Env}
use tnc640unix.Rtos.Events
use tnc640unix.Rtos.Signals.{Kill}
use tnc640unix.Rtos.Semaphores
use tnc640unix.Rtos.Queues.Read
use tnc640unix.Rtos.Acks.{Acks, Knobs}
use tnc640unix.Rtos.Calls.{IdentKnobs}

-- The process's environment, as the handlers decide it, and its memory: words, strings and bytes
-- at an address
pub record Process : Type 0 where
  pub env : Env
  pub knobs : Knobs
  pub ident : IdentKnobs
  pub wkafter_cap : ℕ
  pub timers_fire : Bool
  pub getenv : List ℕ → Option (List ℕ)
  pub caller : Caller
  pub word : ℕ → ℕ
  pub text : ℕ → List ℕ
  pub bytes : ℕ → ℕ → List ℕ

pub record Shared : Type 0 where
  pub ctl : Ctl
  pub acks : Acks

abbrev pub Block : Type 0
Block = ℕ → ℕ

-- Bytes stored at an address
abbrev pub Stored : Type 0
Stored = List (ℕ × List ℕ)

-- An answer with what is stored for the caller and the signals sent; or a turn of a call that may
-- wait; or a wait for T_start, a sleep, or the mapping of a region, which the host's kernel does
pub data Outcome : Type 0 where
  answers : ℤ → Stored → List Kill → Outcome
  receives : Events.Turn → Outcome
  requests : Semaphores.Turn → Outcome
  reads : Read.Turn → ℕ → ℕ → Outcome
  awaits_start : Option ℕ → Stored → Outcome
  sleeps : ℕ → Outcome
  attaches : ℕ → Outcome

abbrev pub Result : Type 0
Result = Outcome × Shared

abbrev pub answer : ℤ → Shared → Result
answer z s = (answers z [] [], s)

abbrev pub answered : Shared → ℤ × Ctl → Result
answered s (z, c) = answer z (record s { ctl = c })

abbrev pub answered_id : Shared → ℕ × Ctl → Result
answered_id s (id, c) = answer (signed32 id) (record s { ctl = c })

-- `id ? id : error`
abbrev pub id_or : ℤ → Shared → ℕ × Ctl → Result
id_or z s (id, c) = answer (if id == 0 then z else signed32 id) (record s { ctl = c })

-- A store through a pointer that may be null
abbrev pub store_at : ℕ → List ℕ → Stored
store_at p xs = if p == 0 then [] else (p, xs) ∷ []

abbrev pub text_at : Process → ℕ → Option (List ℕ)
text_at k p = if p == 0 then none else some (k.text p)
