-- ===== src/Rtos/Queues.antt =====
-- Named queues: the lookups, Q_create and Q_delete. The message ring is Queues/Ring, Q_ident is
-- Queues/Ident, Q_send is Queues/Send and Q_read is Queues/Read.
pub mod Ring
pub mod Ident
pub mod Send
pub mod Read
pub mod Fifo
pub mod Channel
pub mod Notify
pub mod Serials
pub mod Registry
pub mod Routing
pub mod Naming
use tnc640unix.Base.{
  ℕ, ◌+◌, ◌%◌, ◌^◌, Bool, true, false, ◌&&◌, not, Option, none, some, List, [], ◌∷◌, if◌then◌else◌,
  ◌==◌, get_or, set, bit_and, ℤ, pos, negsuc,
}
use tnc640unix.Rtos.Table.{find_slot}
use tnc640unix.Rtos.Table.Ids.{id_slot, free_slot}
use tnc640unix.Rtos.Names.{stored, name_eq, q_basename}
use tnc640unix.Rtos.State.{Queue, Ctl, Caller, Env, no_queue}
use tnc640unix.Rtos.Tasks.{task_self}

abbrev pub is_used : Queue → Bool
is_used q = q.used

abbrev pub queue_id : Queue → ℕ
queue_id q = q.id

abbrev pub is_empty : List ℕ → Bool
is_empty [] = true
is_empty (x ∷ xs) = false

-- `q_slot`; `none` is -1.
abbrev pub q_slot : ℕ → Ctl → Option ℕ
q_slot k c = id_slot is_used queue_id k c.queues

-- `C->queues[s]`
abbrev pub queue_at : ℕ → Ctl → Queue
queue_at s c = get_or c.queues s no_queue

abbrev pub put_queue : ℕ → Queue → Ctl → Ctl
put_queue s q c = record c { queues = set c.queues s q }

abbrev pub has_name : List ℕ → Queue → Bool
has_name base q = q.used && name_eq q.name base

-- `q_find_slot`
abbrev pub q_find_slot : List ℕ → Ctl → Option ℕ
q_find_slot base c = find_slot (has_name base) c.queues

abbrev pub deleted : Queue → Queue
deleted q = record q { used = false; name = []; head = 0; tail = 0; notify_bits = 0; owner = 0 }

-- `q_delete`
unfoldable pub q_delete : ℕ → Ctl → ℤ × Ctl
q_delete id c = elim (q_slot id c) [
  | none ↦ (negsuc 8, c)
  | some s ↦ (pos 0, put_queue s (deleted (queue_at s c)) c)
]

-- `(flags&2)?(flags&0xff000000u):0`
abbrev pub notify_of : ℕ → ℕ
notify_of flags = if bit_and flags 2 == 0 then 0 else bit_and flags 0xff000000

-- A real Q_create of a name that is there: the takeover of a placeholder, and the synthetic mark.
abbrev pub adopt : ℕ → ℕ → Queue → Queue
adopt owner nbits q =
    if not (nbits == 0) && q.notify_bits == 0
    then record q { owner = owner; notify_bits = nbits; synth = 0 }
    else record q { synth = 0 }

abbrev pub new_queue : List ℕ → ℕ → ℕ → ℕ → ℕ → Queue → Queue
new_queue base depth flags owner id q = record q {
  used = true;
  id = id;
  head = 0;
  tail = 0;
  synth = 0;
  drop_warned = 0;
  wm_tick_offset = 0;
  wm_last_serial = 0;
  depth = depth;
  flags = flags;
  owner = owner;
  notify_bits = notify_of flags;
  name = stored base;
}

-- The end of `q_create` for a name that is not there: the table may be full.
unfoldable pub q_fill : List ℕ → ℕ → ℕ → ℕ → Ctl → Option ℕ → ℕ × Ctl
q_fill base depth flags owner c none = (0, c)
q_fill base depth flags owner c (some s) = (
  c.next_q,
  record c {
    next_q = (c.next_q + 1) % 2 ^ 32;
    queues = set c.queues s (new_queue base depth flags owner c.next_q (queue_at s c));
  },
)

unfoldable pub q_create_at : List ℕ → ℕ → ℕ → ℕ → Ctl → Option ℕ → ℕ × Ctl
unfolding q_fill
q_create_at base depth flags owner c none =
    q_fill base depth flags owner c (free_slot is_used queue_id c.queues)
q_create_at base depth flags owner c (some s) =
    ((queue_at s c).id, put_queue s (adopt owner (notify_of flags) (queue_at s c)) c)

-- `q_create` without the event relay, which is off by default.
unfoldable pub q_create : Env → Caller → Option (List ℕ) → ℕ → ℕ → Ctl → ℕ × Ctl
unfolding q_create_at
q_create e w nm depth flags c =
    let base = q_basename nm in
    let (owner, d) = task_self e w c in q_create_at base depth flags owner d (q_find_slot base d)
