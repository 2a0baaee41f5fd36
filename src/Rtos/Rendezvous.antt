-- ===== src/Rtos/Rendezvous.antt =====
-- T_create (the child's side) and T_start: the handshake by which a parent learns its child's id
-- and hands it a context. What T_start stores in guest memory is a list of addresses with bytes.
pub mod Handshake
pub mod Handover
use tnc640unix.Base.{
  ℕ, ◌+◌, ◌%◌, ◌^◌, Bool, true, false, ◌&&◌, ◌||◌, not, Option, none, some, if◌then◌else◌, ◌==◌,
  ltb, ℤ, pos, negsuc, List, [], ◌∷◌, ◌++◌, bytes32,
}
use tnc640unix.Rtos.State.{Task, Ctl, Caller, Env}
use tnc640unix.Rtos.Tasks.{task_slot, task_at, put_task, task_self}
use tnc640unix.Rtos.Events.{ev_send, tc_bit}

-- What the child tells the kernel: its parent, and where it wants the context and the size.
pub record Request : Type 0 where
  pub parent : ℕ
  pub ctx_dst : ℕ
  pub arg_dst : ℕ
  pub msgsize : ℕ

-- The child's entry while it waits for T_start.
abbrev pub parked : Request → ℕ → Ctl → Task
parked r s c = record (task_at s c) {
  ctx_dst = r.ctx_dst;
  arg_dst = r.arg_dst;
  msgsize = r.msgsize;
  started = 0;
}

unfoldable pub await_start : Request → Option ℕ → Ctl → Ctl
await_start r none c = c
await_start r (some s) c = put_task s (parked r s c) c

abbrev is_some : Option ℕ → Bool
is_some none = false
is_some (some s) = true

-- Wake a known parent, or publish a token for an unknown one.
unfoldable pub announce : ℕ → Ctl → Ctl
announce parent c =
    if not (parent == 0) && is_some (task_slot parent c)
    then (ev_send parent tc_bit c).1
    else record c { orphan_tc = (c.orphan_tc + 1) % 2 ^ 32 }

-- `case 0x00` up to its wait: the child's id, which is stored for the parent.
unfoldable pub t_create : Env → Caller → Request → Ctl → ℕ × Ctl
unfolding task_self await_start announce
t_create e w r c =
    let (id, c') = task_self e w c in (id, announce r.parent (await_start r (task_slot id c') c'))

-- The test of the child's wait loop.
abbrev pub may_run : ℕ → Ctl → Bool
may_run s c = not ((task_at s c).started == 0)

-- The bytes that T_start copies: the size, cut to the child's buffer where that has a size.
abbrev pub copied : ℕ → ℕ → ℕ
copied size cap = if not (cap == 0) && ltb cap size then cap else size

-- Bytes stored at addresses, in their order
abbrev pub Stores : Type 0
Stores = List (ℕ × List ℕ)

-- The copy of the context from `src`, where there is a buffer, a source and something to copy, and
-- the store of the size, where there is a place for it; `bytes` is the memory.
unfoldable pub handed : (ℕ → ℕ → List ℕ) → ℕ → ℕ → ℕ → ℕ → ℕ → Stores
handed bytes ctx_dst arg_dst msgsize size src =
    let n = copied size msgsize in
    (if not (ctx_dst == 0) && (not (src == 0) && not (n == 0))
      then (ctx_dst, bytes src n) ∷ []
      else [])
    ++ (if arg_dst == 0 then [] else (arg_dst, bytes32 size) ∷ [])

-- `case 0x02`: the result, and what it stores
unfoldable pub t_start : (ℕ → ℕ → List ℕ) → ℕ → ℕ → ℕ → Ctl → ℤ × Stores × Ctl
unfolding handed
t_start bytes id size src c = elim (task_slot id c) [
  | none ↦ (negsuc 0, [], c)
  | some s ↦
      let t = task_at s c in
      (
        pos 0,
        handed bytes t.ctx_dst t.arg_dst t.msgsize size src,
        put_task s (record t { started = 1 }) c,
      )
]
