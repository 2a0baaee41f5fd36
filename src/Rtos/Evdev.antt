-- ===== src/Rtos/Evdev.antt =====
-- The bridge from event words to the /dev/events pipes of a process: `evdev_reconcile_locked`,
-- `evdev_reconcile`, the watcher thread, and the hooks that register a pipe and set its mask. A pipe
-- is the number of its unread bytes, and a registered pipe is new.
pub mod Pipes
pub mod Runs
use tnc640unix.Base.{
  ℕ, ◌+◌, Bool, true, false, ◌&&◌, not, Option, none, some, List, [], ◌∷◌, ◌++◌, if◌then◌else◌,
  ◌==◌, ltb, bit_and, bit_or, ℤ, length, get_or, set,
}
use tnc640unix.Rtos.Table.{find_slot}
use tnc640unix.Rtos.State.{Task, Ctl, Caller, Env}
use tnc640unix.Rtos.Tasks.{task_slot, task_at, task_self}
use tnc640unix.Rtos.Events.{ev_send, Turn, satisfied, tc_bit, ev_turn}

-- `struct evdev`, and the bytes in its pipe
pub record Evdev : Type 0 where
  pub task : ℕ
  pub rd : ℕ
  pub wr : ℕ
  pub sysmask : ℕ
  pub signaled : Bool
  pub unread : ℕ

abbrev pub no_evdev : Evdev
no_evdev = record { task = 0; rd = 0; wr = 0; sysmask = 0; signaled = false; unread = 0 }

-- evdevs[0..n_evdev), events_bridge, and evdev_sibling, which is `none` before a watcher reads it
pub record Bridge : Type 0 where
  pub evdevs : List Evdev
  pub events_bridge : Bool
  pub evdev_sibling : Option Bool

-- `sysmask | 0xff000000u`
abbrev pub dev_mask : Evdev → ℕ
dev_mask d = bit_or d.sysmask 0xff000000

-- `events & mask`
abbrev pub pends : ℕ → Task → Bool
pends mask t = not (bit_and t.events mask == 0)

abbrev pub sibling_pends : ℕ → ℕ → Task → Bool
sibling_pends tg mask t = t.used && (t.tgid == tg && pends mask t)

abbrev pub is_some : Option ℕ → Bool
is_some none = false
is_some (some i) = true

-- `evdev_sibling!=0`
abbrev pub siblings_on : Option Bool → Bool
siblings_on none = true
siblings_on (some b) = b

-- `want`: an event of the mask pends for the task of slot `s`, or for a sibling
unfoldable pub wanted : Option Bool → ℕ → ℕ → Ctl → Bool
wanted sib mask s c =
    let t = task_at s c in
    if pends mask t
    then true
    else siblings_on sib
      && (not (t.tgid == 0) && is_some (find_slot (sibling_pends t.tgid mask) c.tasks))

-- One byte is written when the pipe becomes readable, all are read when it is no more.
unfoldable pub poke : Bool → Evdev → Evdev
poke want d =
    if want
    then (if d.signaled then d else record d { signaled = true; unread = d.unread + 1 })
    else if d.signaled
    then record d { signaled = false; unread = 0 }
    else d

-- `evdev_reconcile_locked`
unfoldable pub evdev_reconcile_locked : Option Bool → Ctl → Evdev → Evdev
unfolding wanted poke
evdev_reconcile_locked sib c d = elim (task_slot d.task c) [
  | none ↦ d
  | some s ↦ poke (wanted sib (dev_mask d) s c) d
]

abbrev pub evdev_at : ℕ → Bridge → Evdev
evdev_at i b = get_or b.evdevs i no_evdev

abbrev pub put_evdev : ℕ → Evdev → Bridge → Bridge
put_evdev i d b = record b { evdevs = set b.evdevs i d }

abbrev pub reconcile_at : Option ℕ → Ctl → Bridge → Bridge
reconcile_at none c b = b
reconcile_at (some i) c b = put_evdev i (evdev_reconcile_locked b.evdev_sibling c (evdev_at i b)) b

-- `evdev_reconcile`
unfoldable pub evdev_reconcile : ℕ → Ctl → Bridge → Bridge
evdev_reconcile task c b =
    if b.events_bridge then reconcile_at (find_slot (λ d. d.task == task) b.evdevs) c b else b

-- `ev_send` with the bridge of the sender's process
unfoldable pub ev_send_bridged : ℕ → ℕ → Ctl × Bridge → ℤ × (Ctl × Bridge)
unfolding ev_send
ev_send_bridged task bits (c, b) =
    let (z, d) = ev_send task bits c in
    (z, (d, if is_some (task_slot task c) then evdev_reconcile task d b else b))

-- One turn of the loop of `ev_receive` with the bridge: a receive that is satisfied, and a poll that
-- is not, reconcile the task's pipe; an orphan's token and an expired wait do not.
abbrev pub reconciles : ℕ → ℕ → ℕ → ℕ → Ctl → Bool
reconciles s want cond timeout c =
    if not (bit_and want tc_bit == 0) && ltb 0 c.orphan_tc
    then false
    else if satisfied cond (task_at s c).events want
    then true
    else timeout == 0

unfoldable pub ev_turn_bridged : ℕ → ℕ → ℕ → ℕ → Bool → Ctl × Bridge → Turn × (Ctl × Bridge)
unfolding ev_turn
ev_turn_bridged s want cond timeout expired (c, b) =
    let (t, d) = ev_turn s want cond timeout expired c in
    (t, (d, if reconciles s want cond timeout c then evdev_reconcile (task_at s c).id d b else b))

-- A turn of `evdev_watcher_fn`; `knob` is HEROS_EVDEV_SIBLING.
abbrev pub settle : Bool → Option Bool → Option Bool
settle knob none = some knob
settle knob (some s) = some s

unfoldable pub evdev_watch : Bool → ℕ → Ctl → Bridge → Bridge
evdev_watch knob i c b = elim (task_slot (evdev_at i b).task c) [
  | none ↦ b
  | some s ↦ reconcile_at (some i) c (record b { evdev_sibling = settle knob b.evdev_sibling })
]

-- `evdevs[i]=...`, in the entry of the same descriptor or task, or behind the last of at most
-- MAXEVDEV
abbrev pub max_evdev : ℕ
max_evdev = 64

abbrev pub place : Option ℕ → Evdev → List Evdev → List Evdev
place none d ds = if ltb (length ds) max_evdev then ds ++ (d ∷ []) else ds
place (some i) d ds = set ds i d

abbrev pub same_evdev : ℕ → ℕ → Evdev → Bool
same_evdev rd t d = if d.rd == rd then true else d.task == t

-- `heros_evdev_register`
unfoldable pub heros_evdev_register : Env → Caller → ℕ → ℕ → Ctl × Bridge → Ctl × Bridge
unfolding task_self
heros_evdev_register e w rd wr (c, b) =
    let (t, d) = task_self e w c in
    let fresh = record no_evdev { task = t; rd = rd; wr = wr } in
    let at = find_slot (same_evdev rd t) b.evdevs in
    if b.events_bridge then (d, record b { evdevs = place at fresh b.evdevs }) else (c, b)

abbrev pub masked : Option ℕ → ℕ → Ctl → Bridge → Bridge
masked none mask c b = b
masked (some i) mask c b =
    reconcile_at (some i) c (put_evdev i (record (evdev_at i b) { sysmask = mask }) b)

-- `heros_evdev_setmask`
unfoldable pub heros_evdev_setmask : ℕ → ℕ → Ctl → Bridge → Bridge
heros_evdev_setmask rd mask c b =
    if b.events_bridge then masked (find_slot (λ d. d.rd == rd) b.evdevs) mask c b else b
