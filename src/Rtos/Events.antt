-- ===== src/Rtos/Events.antt =====
-- Events: Ev_send and one turn of the loop of Ev_receive, in the default environment (none of the
-- injection and unblocking knobs set, no /dev/events pipe registered).
pub mod Delivery
use tnc640unix.Base.{
  ℕ, ◌+◌, ◌-◌, ◌^◌, Bool, true, false, ◌&&◌, not, Option, none, some, List, if◌then◌else◌, ◌==◌,
  ltb, bit_and, bit_or, bit_not, ℤ, pos, negsuc, set,
}
use tnc640unix.Rtos.State.{Task, Ctl, Caller, Env}
use tnc640unix.Rtos.Tasks.{task_slot, task_at, put_task}

-- `__atomic_or_fetch` on the event word of slot `s`
abbrev pub raise : ℕ → ℕ → Ctl → Ctl
raise s bits c = put_task s (record (task_at s c) { events = bit_or (task_at s c).events bits }) c

-- `ev_send`: -7 for an unknown task
unfoldable pub ev_send : ℕ → ℕ → Ctl → ℤ × Ctl
ev_send task bits c = elim (task_slot task c) [
  | none ↦ (negsuc 6, c)
  | some s ↦ (pos 0, raise s bits c)
]

-- What one turn of the loop does: return an event word, or sleep on the event word's value.
pub data Turn : Type 0 where
  returns : ℕ → Turn
  sleeps : ℕ → Turn

-- The bit of the T_create rendezvous
abbrev pub tc_bit : ℕ
tc_bit = 0x80000

-- `cond==1 ? (cur&want)==want : (cur&want)!=0`
abbrev pub satisfied : ℕ → ℕ → ℕ → Bool
satisfied cond cur want =
    if cond == 1 then bit_and cur want == want else not (bit_and cur want == 0)

-- The recording of `want` on entry
unfoldable pub ev_enter : ℕ → ℕ → Ctl → Ctl
ev_enter s want c = put_task s (record (task_at s c) { last_ev_want = want }) c

-- A turn after the rendezvous tokens: test, consume, or wait. `expired` is the deadline's test.
unfoldable pub ev_check : ℕ → ℕ → ℕ → ℕ → Bool → Ctl → Turn × Ctl
ev_check s want cond timeout expired c =
    let t = task_at s c in
    let caught = bit_and t.events want in
    if satisfied cond t.events want
    then (
      returns caught,
      put_task s (record t { nowait_miss = 0; events = bit_and t.events (bit_not caught) }) c,
    )
    else if timeout == 0
    then (returns 0, c)
    else if expired
    then (returns caught, c)
    else (sleeps t.events, c)

-- One turn of the loop of `ev_receive` for the task of slot `s`.
unfoldable pub ev_turn : ℕ → ℕ → ℕ → ℕ → Bool → Ctl → Turn × Ctl
unfolding ev_check
ev_turn s want cond timeout expired c =
    if not (bit_and want tc_bit == 0) && ltb 0 c.orphan_tc
    then (returns (bit_and want tc_bit), record c { orphan_tc = c.orphan_tc - 1 })
    else ev_check s want cond timeout expired c
