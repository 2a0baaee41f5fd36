-- ===== src/Rtos/Tests/Signals.antt =====
-- The async signals' theorems at a concrete task.
use tnc640unix.Base.{ℕ, ◌-◌, ◌≡◌, [], ◌∷◌, arith, bit, min, max}
use tnc640unix.Rtos.State.{Ctl, no_task}
use tnc640unix.Rtos.Tasks.{task_at}
use tnc640unix.Rtos.Signals.{as_forced, as_read}
use tnc640unix.Rtos.Signals.Laws.{as_read_splits}
use tnc640unix.Rtos.Tests.{first_task, one_task}

-- Signal 0 enabled, signal 1 pending
abbrev masked_task : Ctl
masked_task = record one_task {
  tasks = record first_task { as_mask = 1; as_pending = 2 } ∷ no_task ∷ [];
}

as_read_splits_example :
    let (req, caught, c') = as_read 0 2 masked_task in
    (req ≡ 2)
    × ((i : ℕ)
        → (bit i caught ≡ min (max (bit i req) (bit i as_forced)) (bit i 2))
          × (bit i (task_at 0 c').as_pending
              ≡ min (bit i 2) (1 - max (bit i req) (bit i as_forced))))
as_read_splits_example = as_read_splits 0 2 masked_task (omega arith) (omega arith)
