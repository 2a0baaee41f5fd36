-- ===== src/Rtos/State.antt =====
-- The shared control segment (struct ctl and its tables), the calling thread, and the knobs of the
-- environment. Words are numbers below 2^32; the futex lock is left out, since each operation of
-- the model is one critical section or one atomic access.
use tnc640unix.Base.{ℕ, Bool, false, true, List, [], replicate}

-- struct task. `ctx_dst` and `arg_dst` are addresses in the owning process.
pub record Task : Type 0 where
  pub used : Bool
  pub id : ℕ
  pub tgid : ℕ
  pub tid : ℕ
  pub name : List ℕ
  pub pname : List ℕ
  pub events : ℕ
  pub started : ℕ
  pub ctx_dst : ℕ
  pub arg_dst : ℕ
  pub msgsize : ℕ
  pub as_pending : ℕ
  pub as_mask : ℕ
  pub last_ev_want : ℕ
  pub nowait_miss : ℕ
  pub last_req_family : ℕ

-- struct sem. `count` is the bit pattern of an int32_t.
pub record Sem : Type 0 where
  pub used : Bool
  pub id : ℕ
  pub name : List ℕ
  pub count : ℕ

-- struct qmsg: the `len` bytes that were copied in, and the sender header.
pub record Msg : Type 0 where
  pub body : List ℕ
  pub hdr0 : ℕ
  pub hdr1 : ℕ
  pub hdr2 : ℕ

-- struct queue
pub record Queue : Type 0 where
  pub used : Bool
  pub id : ℕ
  pub name : List ℕ
  pub drop_warned : ℕ
  pub synth : ℕ
  pub depth : ℕ
  pub flags : ℕ
  pub owner : ℕ
  pub notify_bits : ℕ
  pub head : ℕ
  pub tail : ℕ
  pub wm_tick_offset : ℕ
  pub wm_last_serial : ℕ
  pub msg : List Msg

-- struct region
pub record Region : Type 0 where
  pub used : Bool
  pub id : ℕ
  pub name : List ℕ
  pub size : ℕ

-- struct ctl
pub record Ctl : Type 0 where
  pub next_task : ℕ
  pub next_sem : ℕ
  pub next_q : ℕ
  pub next_reg : ℕ
  pub orphan_tc : ℕ
  pub tasks : List Task
  pub sems : List Sem
  pub queues : List Queue
  pub regs : List Region

abbrev pub no_task : Task
no_task = record {
  used = false;
  id = 0;
  tgid = 0;
  tid = 0;
  name = [];
  pname = [];
  events = 0;
  started = 0;
  ctx_dst = 0;
  arg_dst = 0;
  msgsize = 0;
  as_pending = 0;
  as_mask = 0;
  last_ev_want = 0;
  nowait_miss = 0;
  last_req_family = 0;
}

abbrev pub no_sem : Sem
no_sem = record { used = false; id = 0; name = []; count = 0 }

abbrev pub no_msg : Msg
no_msg = record { body = []; hdr0 = 0; hdr1 = 0; hdr2 = 0 }

-- QSLOTS
abbrev pub qslots : ℕ
qslots = 12

abbrev pub no_queue : Queue
no_queue = record {
  used = false;
  id = 0;
  name = [];
  drop_warned = 0;
  synth = 0;
  depth = 0;
  flags = 0;
  owner = 0;
  notify_bits = 0;
  head = 0;
  tail = 0;
  wm_tick_offset = 0;
  wm_last_serial = 0;
  msg = replicate 12 no_msg;
}

abbrev pub no_region : Region
no_region = record { used = false; id = 0; name = []; size = 0 }

-- MAXTASK, MAXSEM, MAXQ, MAXREG
abbrev pub max_task : ℕ
max_task = 512

abbrev pub max_sem : ℕ
max_sem = 512

abbrev pub max_q : ℕ
max_q = 3072

abbrev pub max_reg : ℕ
max_reg = 256

-- A zeroed segment with tables of the given sizes and the counters at their starts.
abbrev pub fresh : ℕ → ℕ → ℕ → ℕ → Ctl
fresh nt ns nq nr = record {
  next_task = 0x100;
  next_sem = 0x200;
  next_q = 0x300;
  next_reg = 0x4000;
  orphan_tc = 0;
  tasks = replicate nt no_task;
  sems = replicate ns no_sem;
  queues = replicate nq no_queue;
  regs = replicate nr no_region;
}

-- `ctl_init` in the first process
abbrev pub ctl_init : Ctl
ctl_init = fresh max_task max_sem max_q max_reg

-- The calling thread: its OS ids and its process's own name.
pub record Caller : Type 0 where
  pub tgid : ℕ
  pub tid : ℕ
  pub self_pname : List ℕ

-- The environment variables that the modelled paths read, as `ensure_init` and the first use of
-- each decide them.
pub record Env : Type 0 where
  pub pname_reg : Bool
  pub as_deliver : Bool
  pub q_autocreate : Bool
  pub qident_notify : Bool
  pub qident_dotlead : Bool
  pub sem_autocount : ℕ
  pub cfg_reply_route : Bool
  pub inject_ack : Bool
  pub sk_reply_route : Bool
  pub sk_reply_force : Bool
  pub wm_serial_fix : Bool
  pub in_wm_tick : Bool

-- No variable set.
abbrev pub default_env : Env
default_env = record {
  pname_reg = false;
  as_deliver = true;
  q_autocreate = true;
  qident_notify = true;
  qident_dotlead = true;
  sem_autocount = 1;
  cfg_reply_route = false;
  inject_ack = false;
  sk_reply_route = true;
  sk_reply_force = false;
  wm_serial_fix = false;
  in_wm_tick = false;
}
