-- ===== src/Rtos/Tasks.antt =====
-- Tasks: `task_slot`, `task_self`, the two name lookups, and the rendezvous of T_create with
-- T_start.
pub mod Registry
use tnc640unix.Base.{
  ℕ, ◌+◌, ◌-◌, ◌%◌, ◌^◌, min, Bool, true, false, ◌&&◌, not, Option, none, some, List, [], ◌∷◌,
  if◌then◌else◌, ◌==◌, ltb, get_or, set, take,
}
use tnc640unix.Rtos.Table.{find_slot}
use tnc640unix.Rtos.Table.Ids.{id_slot, free_slot}
use tnc640unix.Rtos.Names.{stored, name_eq, canon_pname}
use tnc640unix.Rtos.State.{Task, Ctl, Caller, Env, no_task}

abbrev pub is_used : Task → Bool
is_used t = t.used

abbrev pub task_id : Task → ℕ
task_id t = t.id

abbrev pub is_empty : List ℕ → Bool
is_empty [] = true
is_empty (x ∷ xs) = false

-- `task_slot`; `none` is -1.
abbrev pub task_slot : ℕ → Ctl → Option ℕ
task_slot k c = id_slot is_used task_id k c.tasks

-- `C->tasks[s]`
abbrev pub task_at : ℕ → Ctl → Task
task_at s c = get_or c.tasks s no_task

-- Stores into `C->tasks[s]`.
abbrev pub put_task : ℕ → Task → Ctl → Ctl
put_task s t c = record c { tasks = set c.tasks s t }

abbrev pub is_thread : Caller → Task → Bool
is_thread w t = t.used && (t.tgid == w.tgid && t.tid == w.tid)

-- The entry that `task_self` fills for a thread it has not seen.
abbrev pub new_task : Env → Caller → ℕ → Task → Task
new_task e w id t = record t {
  used = true;
  id = id;
  tgid = w.tgid;
  tid = w.tid;
  events = 0;
  name = [];
  pname = if e.pname_reg && (w.tid == w.tgid) then stored w.self_pname else [];
  as_pending = 0;
  as_mask = 0;
}

unfoldable pub register : Env → Caller → Ctl → Option ℕ → ℕ × Ctl
register e w c none = (0x101, c)
register e w c (some s) = (
  c.next_task,
  record c {
    next_task = (c.next_task + 1) % 2 ^ 32;
    tasks = set c.tasks s (new_task e w c.next_task (task_at s c));
  },
)

-- `task_self` behind its memo: the id of the calling thread, registering it on its first call.
unfoldable pub task_self : Env → Caller → Ctl → ℕ × Ctl
unfolding register
task_self e w c = elim (find_slot (is_thread w) c.tasks) [
  | some s ↦ ((task_at s c).id, c)
  | none ↦ register e w c (free_slot is_used task_id c.tasks)
]

id_at : Ctl → Option ℕ → ℕ
id_at c none = 0
id_at c (some s) = (task_at s c).id

-- `task_by_name`; 0 if there is none.
unfoldable pub task_by_name : List ℕ → Ctl → ℕ
unfolding id_at
task_by_name nm c = id_at c (find_slot (λ t. t.used && name_eq t.name nm) c.tasks)

-- `proc_by_name`; 0 if there is none.
unfoldable pub proc_by_name : Option (List ℕ) → Ctl → ℕ
unfolding id_at
proc_by_name none c = 0
proc_by_name (some []) c = 0
proc_by_name (some (x ∷ nm)) c = id_at c (
    find_slot
      (λ t. t.used && (not (is_empty t.pname) && name_eq t.pname (canon_pname (some (x ∷ nm)))))
      c.tasks)
