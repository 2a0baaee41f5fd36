-- ===== src/Rtos/Tests/Semaphores.antt =====
-- The semaphores' theorems at concrete semaphores and schedules.
use tnc640unix.Base.{
  ℕ, zero, suc, ◌+◌, ◌%◌, ◌^◌, ◌≡◌, refl, true, false, some, List, [], ◌∷◌, arith, pos, get_elem?,
}
use tnc640unix.Rtos.Table.{find_slot}
use tnc640unix.Rtos.State.{Ctl, no_sem}
use tnc640unix.Rtos.Semaphores.{enough, sem_release}
use tnc640unix.Rtos.Semaphores.Laws.{grants, release_opens_barrier}
use tnc640unix.Rtos.Semaphores.Threads.{ready, loaded, asleep, granted, Move, Step, Reach}
use tnc640unix.Rtos.Semaphores.Threads.Wakeup.{IsUnits, spent, no_lost_wakeup, units_conserved}
use tnc640unix.Rtos.Tests.{one_task}

-- A subsystem's semaphore, closed
abbrev barrier : Ctl
barrier = record one_task {
  next_sem = 0x201;
  sems = record { used = true; id = 0x200; name = b'N' ∷ b'c' ∷ []; count = 0 } ∷ no_sem ∷ [];
}

release_opens_barrier_example :
    let (answer, d) = sem_release 0x200 6 barrier in (answer ≡ pos 0) × (grants 9 0x200 d ≡ 6)
unfolding find_slot
release_opens_barrier_example =
    release_opens_barrier 0x200 0 6 9 barrier refl (omega arith) (omega arith) (omega arith)

abbrev wants : List ℕ
wants = 2 ∷ []

wants_ok : (i u : ℕ) → get_elem? wants i ≡ some u → IsUnits u
wants_ok zero u h = go (cut h)
  where
    cut : some 2 ≡ some u → 2 ≡ u
    cut e = cc

    go : 2 ≡ u → IsUnits u
    go e = (omega arith, omega arith)
wants_ok (suc i) u h = cc

-- A request of two units that finds one, and sleeps.
sleeping :
    Reach 1 wants 0
      (record { count = 1; waking = 0; waiters = record { units = 2; pc = asleep } ∷ [] })
sleeping =
    Reach.later
      (Reach.later Reach.start (Step.pick 0 (record { units = 2; pc = ready }) refl Move.load))
      (Step.pick 0 (record { units = 2; pc = loaded 1 }) refl (Move.sleep refl refl))

no_lost_wakeup_example : enough 1 2 ≡ false
no_lost_wakeup_example =
    no_lost_wakeup (omega arith) wants_ok sleeping refl 0 (record { units = 2; pc = asleep }) refl
      refl

-- One that finds both, and is granted them.
served :
    Reach 3 wants 0
      (record { count = 1; waking = 0; waiters = record { units = 2; pc = granted } ∷ [] })
served =
    Reach.later
      (Reach.later Reach.start (Step.pick 0 (record { units = 2; pc = ready }) refl Move.load))
      (Step.pick 0 (record { units = 2; pc = loaded 3 }) refl (Move.cas_win refl refl))

units_conserved_example :
    (1 + spent (record { units = 2; pc = granted } ∷ [])) % 2 ^ 32 ≡ (3 + 0) % 2 ^ 32
units_conserved_example = units_conserved (omega arith) wants_ok served
