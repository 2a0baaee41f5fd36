-- ===== src/Rtos/Shape.antt =====
-- The shape of struct ctl: the tables have the sizes that they are declared with, a name fits its
-- array with its NUL, a ring has QSLOTS slots, and a message at most QMSGCAP bytes.
pub mod Kernel
pub mod Semaphores
pub mod Queues
pub mod Messages
pub mod Acks
pub mod Calls
pub mod Switch
pub mod Runs
use tnc640unix.Base.{
  ℕ, ◌≤◌, ◌≡◌, refl, ◌∙◌, arith, length, length-set, length-take, length-replicate, Every,
  Every-set, Every-get_or, Every-replicate, set, get_or, List,
}
use tnc640unix.Rtos.Names.{name_chars, stored}
use tnc640unix.Rtos.State.{
  Task, Sem, Msg, Queue, Region, Ctl, no_task, no_sem, no_msg, no_queue, no_region, qslots, fresh,
}
use tnc640unix.Rtos.Tasks.{task_at, put_task}
use tnc640unix.Rtos.Semaphores.{sem_at, put_sem}
use tnc640unix.Rtos.Queues.{queue_at, put_queue}
use tnc640unix.Rtos.Queues.Send.{qmsgcap}
use tnc640unix.Rtos.Regions.{region_chars}

pub record TaskShape (t : Task) : Type 0 where
  pub name : length t.name ≤ name_chars
  pub pname : length t.pname ≤ name_chars

abbrev pub SemShape : Sem → Type 0
SemShape x = length x.name ≤ name_chars

abbrev pub MsgShape : Msg → Type 0
MsgShape m = length m.body ≤ qmsgcap

pub record QueueShape (q : Queue) : Type 0 where
  pub name : length q.name ≤ name_chars
  pub slots : length q.msg ≡ qslots
  pub bodies : Every MsgShape q.msg

abbrev pub RegionShape : Region → Type 0
RegionShape r = length r.name ≤ region_chars

-- The sizes of the four tables
pub record Sizes : Type 0 where
  pub task_slots : ℕ
  pub sem_slots : ℕ
  pub queue_slots : ℕ
  pub region_slots : ℕ

pub record Shaped (z : Sizes) (c : Ctl) : Type 0 where
  pub task_table : length c.tasks ≡ z.task_slots
  pub sem_table : length c.sems ≡ z.sem_slots
  pub queue_table : length c.queues ≡ z.queue_slots
  pub region_table : length c.regs ≡ z.region_slots
  pub all_tasks : Every TaskShape c.tasks
  pub all_sems : Every SemShape c.sems
  pub all_queues : Every QueueShape c.queues
  pub all_regions : Every RegionShape c.regs

pub stored-short : (s : List ℕ) → length (stored s) ≤ name_chars
stored-short s = omega (arith, length-take name_chars s)

no_queue-Shape : QueueShape no_queue
no_queue-Shape = record {
  name = omega arith;
  slots = refl;
  bodies = Every-replicate MsgShape 12 no_msg (omega arith);
}

-- The first segment has its shape.
pub fresh-Shaped :
    (z : Sizes) → Shaped z (fresh z.task_slots z.sem_slots z.queue_slots z.region_slots)
fresh-Shaped z = record {
  task_table = length-replicate z.task_slots no_task;
  sem_table = length-replicate z.sem_slots no_sem;
  queue_table = length-replicate z.queue_slots no_queue;
  region_table = length-replicate z.region_slots no_region;
  all_tasks =
      Every-replicate TaskShape z.task_slots no_task
        (record { name = omega arith; pname = omega arith });
  all_sems = Every-replicate SemShape z.sem_slots no_sem (omega arith);
  all_queues = Every-replicate QueueShape z.queue_slots no_queue no_queue-Shape;
  all_regions = Every-replicate RegionShape z.region_slots no_region (omega arith);
}

module _ (z : Sizes) (c : Ctl) (h : Shaped z c) where
  pub task_at-Shape : (s : ℕ) → TaskShape (task_at s c)
  task_at-Shape s =
      Every-get_or TaskShape c.tasks s no_task h.all_tasks
        (record { name = omega arith; pname = omega arith })

  pub sem_at-Shape : (s : ℕ) → SemShape (sem_at s c)
  sem_at-Shape s = Every-get_or SemShape c.sems s no_sem h.all_sems (omega arith)

  pub queue_at-Shape : (s : ℕ) → QueueShape (queue_at s c)
  queue_at-Shape s = Every-get_or QueueShape c.queues s no_queue h.all_queues no_queue-Shape

  pub put_task-Shaped : (s : ℕ) (t : Task) → TaskShape t → Shaped z (put_task s t c)
  put_task-Shaped s t ht = record {
    task_table = length-set c.tasks s t ∙ h.task_table;
    sem_table = h.sem_table;
    queue_table = h.queue_table;
    region_table = h.region_table;
    all_tasks = Every-set TaskShape c.tasks s t h.all_tasks ht;
    all_sems = h.all_sems;
    all_queues = h.all_queues;
    all_regions = h.all_regions;
  }

  pub put_sem-Shaped : (s : ℕ) (x : Sem) → SemShape x → Shaped z (put_sem s x c)
  put_sem-Shaped s x hx = record {
    task_table = h.task_table;
    sem_table = length-set c.sems s x ∙ h.sem_table;
    queue_table = h.queue_table;
    region_table = h.region_table;
    all_tasks = h.all_tasks;
    all_sems = Every-set SemShape c.sems s x h.all_sems hx;
    all_queues = h.all_queues;
    all_regions = h.all_regions;
  }

  pub put_queue-Shaped : (s : ℕ) (q : Queue) → QueueShape q → Shaped z (put_queue s q c)
  put_queue-Shaped s q hq = record {
    task_table = h.task_table;
    sem_table = h.sem_table;
    queue_table = length-set c.queues s q ∙ h.queue_table;
    region_table = h.region_table;
    all_tasks = h.all_tasks;
    all_sems = h.all_sems;
    all_queues = Every-set QueueShape c.queues s q h.all_queues hq;
    all_regions = h.all_regions;
  }

  pub put_region-Shaped :
      (s : ℕ) (r : Region) → RegionShape r → Shaped z (record c { regs = set c.regs s r })
  put_region-Shaped s r hr = record {
    task_table = h.task_table;
    sem_table = h.sem_table;
    queue_table = h.queue_table;
    region_table = length-set c.regs s r ∙ h.region_table;
    all_tasks = h.all_tasks;
    all_sems = h.all_sems;
    all_queues = h.all_queues;
    all_regions = Every-set RegionShape c.regs s r h.all_regions hr;
  }

  -- A change of the counters alone
  pub counters-Shaped :
      (nt ns nq nr otc : ℕ)
      → Shaped z
          (record c { next_task = nt; next_sem = ns; next_q = nq; next_reg = nr; orphan_tc = otc })
  counters-Shaped nt ns nq nr otc = record {
    task_table = h.task_table;
    sem_table = h.sem_table;
    queue_table = h.queue_table;
    region_table = h.region_table;
    all_tasks = h.all_tasks;
    all_sems = h.all_sems;
    all_queues = h.all_queues;
    all_regions = h.all_regions;
  }
