-- ===== src/Rtos/Semaphores.antt =====
-- Counting semaphores: Sm_create, Sm_ident, Sm_request and Sm_release. A count is the bit pattern
-- of an int32_t.
pub mod Laws
pub mod Threads
use tnc640unix.Base.{
  ℕ, ◌+◌, ◌-◌, ◌%◌, ◌^◌, Bool, true, false, ◌&&◌, not, Option, none, some, List, [], ◌∷◌,
  if◌then◌else◌, ◌==◌, ltb, get_or, set, ℤ, pos, negsuc, slt32,
}
use tnc640unix.Rtos.Table.{find_slot}
use tnc640unix.Rtos.Table.Ids.{id_slot, free_slot}
use tnc640unix.Rtos.Names.{stored, name_eq}
use tnc640unix.Rtos.State.{Sem, Ctl, Env, no_sem}

abbrev pub is_used : Sem → Bool
is_used x = x.used

abbrev pub sem_id : Sem → ℕ
sem_id x = x.id

-- `sem_slot`
abbrev pub sem_slot : ℕ → Ctl → Option ℕ
sem_slot k c = id_slot is_used sem_id k c.sems

abbrev pub sem_at : ℕ → Ctl → Sem
sem_at s c = get_or c.sems s no_sem

abbrev pub put_sem : ℕ → Sem → Ctl → Ctl
put_sem s x c = record c { sems = set c.sems s x }

-- The scan for a used semaphore of a name.
abbrev pub named : List ℕ → Ctl → Option ℕ
named nm c = find_slot (λ x. x.used && name_eq x.name nm) c.sems

-- The slot that `sem_make` fills; 0 if the table is full.
unfoldable pub sem_alloc : List ℕ → ℕ → Ctl → ℕ × Ctl
sem_alloc nm count c = elim (free_slot is_used sem_id c.sems) [
  | none ↦ (0, c)
  | some s ↦ (
    c.next_sem,
    record c {
      next_sem = (c.next_sem + 1) % 2 ^ 32;
      sems =
          set c.sems s (record { used = true; id = c.next_sem; name = stored nm; count = count });
    },
  )
]

-- `sem_make`; the empty name stands for a null one too, and always makes a new semaphore.
unfoldable pub sem_make : List ℕ → ℕ → Ctl → ℕ × Ctl
unfolding sem_alloc
sem_make [] count c = sem_alloc [] count c
sem_make (x ∷ nm) count c = elim (named (x ∷ nm) c) [
  | some s ↦ ((sem_at s c).id, c)
  | none ↦ sem_alloc (x ∷ nm) count c
]

abbrev is_empty : List ℕ → Bool
is_empty [] = true
is_empty (x ∷ xs) = false

-- `sem_ident`: a missing semaphore is made on demand. 0 is "not found".
unfoldable pub sem_ident : Env → List ℕ → Ctl → ℕ × Ctl
unfolding sem_make
sem_ident e nm c = elim (named nm c) [
  | some s ↦ ((sem_at s c).id, c)
  | none ↦ if e.q_autocreate && not (is_empty nm) then sem_make nm e.sem_autocount c else (0, c)
]

-- `if(units==0) units=1;`
abbrev pub at_least_one : ℕ → ℕ
at_least_one units = if units == 0 then 1 else units

-- `c - (int32_t)units` and `c + (int32_t)units`, wrapping
abbrev pub minus32 : ℕ → ℕ → ℕ
minus32 a b = (a + 2 ^ 32 - b) % 2 ^ 32

abbrev pub plus32 : ℕ → ℕ → ℕ
plus32 a b = (a + b) % 2 ^ 32

-- `c >= (int32_t)units`
abbrev pub enough : ℕ → ℕ → Bool
enough count units = not (slt32 count units)

-- A turn of the loop of `sem_request`: an answer, or a sleep on the count.
pub data Turn : Type 0 where
  answers : ℤ → Turn
  sleeps : ℕ → Turn

-- One turn of `sem_request` on a slot, its load and compare-exchange taken together.
unfoldable pub request_at : ℕ → ℕ → ℕ → Ctl → Turn × Ctl
request_at s units timeout c =
    let x = sem_at s c in
    let n = at_least_one units in
    if enough x.count n
    then (answers (pos 0), put_sem s (record x { count = minus32 x.count n }) c)
    else if timeout == 0
    then (answers (negsuc 60), c)
    else (sleeps x.count, c)

unfoldable pub sem_request : ℕ → ℕ → ℕ → Ctl → Turn × Ctl
sem_request id units timeout c = elim (sem_slot id c) [
  | none ↦ (answers (negsuc 6), c)
  | some s ↦ request_at s units timeout c
]

unfoldable pub release_at : ℕ → ℕ → Ctl → Ctl
release_at s units c =
    let x = sem_at s c in put_sem s (record x { count = plus32 x.count (at_least_one units) }) c

-- `sem_release`
unfoldable pub sem_release : ℕ → ℕ → Ctl → ℤ × Ctl
sem_release id units c = elim (sem_slot id c) [
  | none ↦ (negsuc 6, c)
  | some s ↦ (pos 0, release_at s units c)
]
