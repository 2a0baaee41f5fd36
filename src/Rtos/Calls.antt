-- ===== src/Rtos/Calls.antt =====
-- The calls that the switch of `syscall` handles itself: the names of tasks and processes, the
-- environment, the timers and the process's own name. A buffer is what is stored at its start.
pub mod Fits
pub mod Peers
use tnc640unix.Base.{
  ℕ, ◌-◌, ◌/◌, ◌^◌, Bool, true, false, ◌&&◌, ◌||◌, not, Option, none, some, List, [], ◌∷◌, ◌++◌,
  if◌then◌else◌, ◌==◌, ltb, leb, length, take, drop, bytes32, codes, ℤ, pos, negsuc,
}
use tnc640unix.Rtos.Table.{find_slot}
use tnc640unix.Rtos.Names.{stored, starts, occurs, canon_pname}
use tnc640unix.Rtos.State.{Task, Ctl, Caller, Env}
use tnc640unix.Rtos.Tasks.{is_empty, task_slot, task_at, task_self, task_by_name, proc_by_name}
use tnc640unix.Rtos.Events.{ev_send}
use tnc640unix.Rtos.Queues.Send.{c_string}

-- `parse_self_pname`: HEROS_PROC_NAME, else the first argument `-p=<name>` of the command line
abbrev proc_argument : List (List ℕ) → List ℕ
proc_argument [] = []
proc_argument (arg ∷ args) =
    if starts (codes "-p=") arg && not (is_empty (drop 3 arg))
    then stored (drop 3 arg)
    else proc_argument args

unfoldable pub parse_self_pname : List ℕ → List (List ℕ) → List ℕ
unfolding canon_pname
parse_self_pname variable args =
    canon_pname (some (if not (is_empty variable) then stored variable else proc_argument args))

-- `case 0x01`: T_ident of the name in two words
unfoldable pub t_ident : Env → Caller → ℕ → ℕ → Ctl → ℕ × Ctl
unfolding task_self task_by_name
t_ident e w a b c =
    let id = task_by_name (c_string (bytes32 a ++ bytes32 b)) c in
    if a == 0 && b == 0 then task_self e w c else if id == 0 then task_self e w c else (id, c)

-- The id that a call means by a task argument: -1 is the caller.
abbrev meant : Env → Caller → ℕ → Ctl → ℕ × Ctl
meant e w tid c = if tid == 2 ^ 32 - 1 then task_self e w c else (tid, c)

abbrev name_in : Ctl → Option ℕ → List ℕ
name_in c none = []
name_in c (some s) = stored (task_at s c).name

abbrev pub own_name : Caller → List ℕ → List ℕ
own_name w name = if is_empty name then stored w.self_pname else name

-- `case 0x09`: what T_name stores, a string and its NUL
unfoldable pub t_name : Env → Caller → ℕ → Ctl → List ℕ × Ctl
t_name e w tid c =
    let (id, d) = meant e w tid c in
    (take 31 (own_name w (name_in d (task_slot id d))) ++ (0 ∷ []), d)

-- The first process name among the tasks of a thread group
abbrev pub group_name : ℕ → Task → Bool
group_name tgid t = t.used && (t.tgid == tgid && not (is_empty t.pname))

abbrev pub pname_in : Ctl → Option ℕ → List ℕ
pname_in c none = []
pname_in c (some s) = stored (task_at s c).pname

abbrev pub group_of : Ctl → Option ℕ → List ℕ
group_of c none = []
group_of c (some s) = pname_in c (find_slot (group_name (task_at s c).tgid) c.tasks)

-- `case 0x2d` with PNAME on: what P_name stores
unfoldable pub p_name : Caller → ℕ → Ctl → List ℕ
p_name w tid c =
    let out = if tid == 2 ^ 32 - 1 then stored w.self_pname else group_of c (task_slot tid c) in
    take 28 out ++ (0 ∷ [])

-- PIDENT_SELF and GRF_STUB
pub record IdentKnobs : Type 0 where
  pub pident_self : Bool
  pub grf_stub : Bool

-- The named form of `case 0x29`
abbrev pub p_ident_named : Env → IdentKnobs → Caller → List ℕ → Ctl → ℕ × Ctl
p_ident_named e k w name c =
    let id = proc_by_name (some name) c in
    if e.pname_reg && not (id == 0)
    then (id, c)
    else if k.grf_stub && occurs (codes "graphics") name
    then task_self e w c
    else (2 ^ 32 - 1, c)

-- `case 0x29`: P_ident, of the caller where the name is null; the pattern of -1 is not found.
unfoldable pub p_ident : Env → IdentKnobs → Caller → Option (List ℕ) → Ctl → ℕ × Ctl
unfolding task_self proc_by_name
p_ident e k w none c = if k.pident_self then task_self e w c else (2 ^ 32 - 1, c)
p_ident e k w (some name) c = p_ident_named e k w name c

-- `env_get`: what it stores in a buffer of `size` bytes, for the variable's value
unfoldable pub env_get : Option (List ℕ) → ℕ → List ℕ
env_get none size = if size == 0 then [] else 0 ∷ []
env_get (some v) size =
    if leb size (length v)
    then if size == 0 then [] else take (size - 1) v ++ (0 ∷ [])
    else v ++ (0 ∷ [])

-- `case 0x1a`: the milliseconds that Tm_wkafter sleeps; `cap` is TM_WKAFTER_CAP_MS, 0 for no cap.
unfoldable pub tm_wkafter : ℕ → ℕ → ℕ
tm_wkafter cap delay = let ms = delay / 1000 in if ltb 0 cap && ltb cap ms then cap else ms

-- `case 0x1b` and `case 0x1d` with TIMERS_FIRE: the event at once, and a timer's id
unfoldable pub tm_event : Bool → Env → Caller → ℕ → Ctl → ℤ × Ctl
unfolding task_self
tm_event fire e w bits c =
    let own = task_self e w c in if fire then (pos 1, (ev_send own.0 bits own.1).1) else (pos 0, c)
