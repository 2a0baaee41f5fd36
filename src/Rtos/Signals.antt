-- ===== src/Rtos/Signals.antt =====
-- Async signals: As_send, As_mask and As_read, with the SIGUSR1 (and SIGCONT) that carries one.
pub mod Laws
use tnc640unix.Base.{
  ℕ, ◌-◌, ◌^◌, Bool, true, false, ◌&&◌, ◌||◌, not, Option, none, some, List, [], ◌∷◌, if◌then◌else◌,
  ◌==◌, ltb, leb, bit_and, bit_or, bit_not, ℤ, pos, negsuc,
}
use tnc640unix.Rtos.State.{Task, Ctl, Caller, Env}
use tnc640unix.Rtos.Tasks.{task_slot, task_at, put_task, task_self}

-- AS_FORCED
abbrev pub as_forced : ℕ
as_forced = 0x2c00000

-- AS_FORCED_MASK
abbrev pub as_forced_mask : ℕ
as_forced_mask = 0x00c00000

-- One `tgkill(tgid, tid, sig)`.
pub record Kill : Type 0 where
  pub tgid : ℕ
  pub tid : ℕ
  pub sig : ℕ

-- `as_kick`: the signals sent. A thread id is positive where its 32-bit pattern is in 1 .. 2^31-1.
unfoldable pub as_kick : Env → ℕ → ℕ → ℕ → List Kill
as_kick e tgid tid trig =
    if not e.as_deliver || (tid == 0 || leb (2 ^ 31) tid)
    then []
    else record { tgid = tgid; tid = tid; sig = 10 }
      ∷ (if bit_and trig 0x400000 == 0
          then []
          else record { tgid = tgid; tid = tid; sig = 18 } ∷ [])

-- `if(trig) as_kick(tgid,tid,trig);`
abbrev pub kick_if : Env → Task → ℕ → List Kill
kick_if e t trig = if trig == 0 then [] else as_kick e t.tgid t.tid trig

-- What a call answers, sends and leaves.
pub record Outcome : Type 0 where
  pub result : ℤ
  pub kills : List Kill
  pub after : Ctl

-- The bits of `bits` that were not pending and are enabled.
abbrev pub triggered : Task → ℕ → ℕ
triggered t bits = bit_and (bit_or t.as_mask as_forced) (bit_and (bit_not t.as_pending) bits)

-- `as_send` on a resolved target: -9 if it is unknown
unfoldable pub as_send_to : Env → ℕ → ℕ → Ctl → Outcome
as_send_to e tgt bits c = elim (task_slot tgt c) [
  | none ↦ record { result = negsuc 8; kills = []; after = c }
  | some s ↦ record {
    result = pos 0;
    kills = kick_if e (task_at s c) (triggered (task_at s c) bits);
    after =
        put_task s (record (task_at s c) { as_pending = bit_or (task_at s c).as_pending bits }) c;
  }
]

-- `as_send`; the target (uint32_t)-1 is the caller.
unfoldable pub as_send : Env → Caller → ℕ → ℕ → Ctl → Outcome
unfolding task_self as_send_to
as_send e w target bits c =
    let own = task_self e w c in
    if target == 2 ^ 32 - 1 then as_send_to e own.0 bits own.1 else as_send_to e target bits c

-- The new mask, the word written back, and the trigger of `as_mask_op`.
pub record Masked : Type 0 where
  pub mask : ℕ
  pub out : ℕ
  pub trig : ℕ

abbrev pub newly : ℕ → ℕ → ℕ
newly msk arg = bit_and (bit_not msk) arg

unfoldable pub mask_op : ℕ → ℕ → ℕ → ℕ → Masked
mask_op msk pend arg op =
    if op == 1
    then if newly msk arg == 0 then record { mask = msk; out = msk; trig = 0 } else record {
      mask = bit_or msk arg;
      out = bit_or msk arg;
      trig = bit_and (bit_or (newly msk arg) as_forced_mask) pend;
    }
    else if op == 2
    then record { mask = arg; out = msk; trig = bit_and (bit_or arg as_forced_mask) pend }
    else record { mask = newly arg msk; out = newly arg msk; trig = 0 }

-- `as_mask_op` for the caller's slot; the word written back comes first.
unfoldable pub as_mask_op : Env → ℕ → ℕ → ℕ → Ctl → ℕ × Outcome
unfolding mask_op
as_mask_op e s arg op c =
    let t = task_at s c in
    let m = mask_op t.as_mask t.as_pending arg op in
    (
      m.out,
      record {
        result = pos 0;
        kills = kick_if e t m.trig;
        after = put_task s (record t { as_mask = m.mask }) c;
      },
    )

-- `as_read` for the caller's slot: the resolved request, what is caught, and the segment.
unfoldable pub as_read : ℕ → ℕ → Ctl → ℕ × ℕ × Ctl
as_read s arg c =
    let t = task_at s c in
    let req = if arg == 0 then t.as_mask else arg in
    let caught = bit_and (bit_or req as_forced) t.as_pending in
    (req, caught, put_task s (record t { as_pending = bit_and t.as_pending (bit_not caught) }) c)
