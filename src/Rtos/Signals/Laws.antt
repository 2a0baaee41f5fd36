-- ===== src/Rtos/Signals/Laws.antt =====
-- When an async signal is raised, carried, masked and read.
use tnc640unix.Base.{
  ℕ, ◌-◌, ◌^◌, ◌<◌, ◌≡◌, ◌≢◌, refl, ◌⊎◌, true, some, List, [], ◌∷◌, arith, ◌==◌, min, max, length,
  bit_and, bit_or, bit_not, bit, bit-lt, bit-zero, bit-bit_and, bit-bit_or, bit-clear, bit_and_comm,
  bit_ext, bit_and-le_right, ap, sym, pos, ◌∙◌, if◌then◌else◌,
}
use native.Mathlib.Decide.{ℕ_discrete}
use tnc640unix.Rtos.State.{Task, Ctl, Env}
use tnc640unix.Rtos.Tasks.{task_slot, task_at, put_task}
use tnc640unix.Rtos.Events.Delivery.{task_at-put}
use tnc640unix.Rtos.Signals.{
  as_forced, as_forced_mask, Kill, as_kick, kick_if, triggered, newly, as_send_to, mask_op,
  as_mask_op, as_read,
}

-- A signal can be delivered to the thread of an entry.
abbrev pub CanKick : Env → Task → Type 0
CanKick e t = (e.as_deliver ≡ true) × (0 < t.tid) × (t.tid < 2 ^ 31)

abbrev pub usr1 : Task → Kill
usr1 t = record { tgid = t.tgid; tid = t.tid; sig = 10 }

bit-clear' :
    (i x y : ℕ)
    → x < 2 ^ 32
    → y < 2 ^ 32
    → bit i (bit_and (bit_not y) x) ≡ min (bit i x) (1 - bit i y)
bit-clear' i x y hx hy = ap (bit i) (bit_and_comm (bit_not y) x) ∙ bit-clear i x y hx hy

-- The bits that As_send triggers.
bit-triggered :
    (i : ℕ) (t : Task) (bits : ℕ)
    → t.as_pending < 2 ^ 32
    → bits < 2 ^ 32
    → bit i (triggered t bits)
      ≡ min (max (bit i t.as_mask) (bit i as_forced)) (min (bit i bits) (1 - bit i t.as_pending))
bit-triggered i t bits hp hb = omega (
  arith,
  bit-bit_and i (bit_or t.as_mask as_forced) (bit_and (bit_not t.as_pending) bits),
  bit-bit_or i t.as_mask as_forced,
  bit-clear' i bits t.as_pending hb hp,
)

kick_if-usr1 :
    (e : Env) (t : Task) (trig : ℕ)
    → CanKick e t
    → trig ≢ 0
    → (rest : List Kill) × (kick_if e t trig ≡ usr1 t ∷ rest)
unfolding as_kick
kick_if-usr1 e t trig can ne = (tail, ground arith)
  where
    tail : List Kill
    tail =
        if bit_and trig 0x400000 == 0
        then []
        else record { tgid = t.tgid; tid = t.tid; sig = 18 } ∷ []

-- As_send to a task that is there answers 0, raises its bits in that task's pending word, and
-- changes nothing but that task's entry.
pub as_send_to_raises :
    (e : Env) (tgt s bits : ℕ) (c : Ctl)
    → task_slot tgt c ≡ some s
    → s < length c.tasks
    → let o = as_send_to e tgt bits c in
      (o.result ≡ pos 0)
      × ((i : ℕ)
          → bit i (task_at s o.after).as_pending
            ≡ max (bit i (task_at s c).as_pending) (bit i bits))
      × (o.after ≡ put_task s (task_at s o.after) c)
unfolding as_send_to
as_send_to_raises e tgt s bits c at inside =
    rw (at, as_send_to)
      (
        refl,
        λ i.
            ap (λ (t : Task). bit i t.as_pending) (task_at-put s _ c inside)
            ∙ bit-bit_or i (task_at s c).as_pending bits,
        ap (λ t. put_task s t c) (sym (task_at-put s _ c inside)),
      )

-- As_send of a bit that is not pending yet and that the target's mask or the forced set enables
-- sends the target's thread SIGUSR1 first, where signals are delivered and its id is a thread's.
pub as_send_to_kicks :
    (e : Env) (tgt s bits i : ℕ) (c : Ctl)
    → task_slot tgt c ≡ some s
    → (task_at s c).as_pending < 2 ^ 32
    → bits < 2 ^ 32
    → CanKick e (task_at s c)
    → bit i bits ≡ 1
    → bit i (task_at s c).as_pending ≡ 0
    → (bit i (task_at s c).as_mask ≡ 1) ⊎ (bit i as_forced ≡ 1)
    → (rest : List Kill) × ((as_send_to e tgt bits c).kills ≡ usr1 (task_at s c) ∷ rest)
unfolding as_send_to
as_send_to_kicks e tgt s bits i c at hp hb can sent fresh enabled =
    rw (at, as_send_to)
      (kick_if-usr1 e (task_at s c) (triggered (task_at s c) bits) can λ zero_trig. omega (
        arith,
        ap (bit i) zero_trig,
        bit-zero i,
        bit-triggered i (task_at s c) bits hp hb,
        bit-lt i (task_at s c).as_mask,
        bit-lt i as_forced,
      ))

-- As_send sends no signal when each of its bits is pending already or not enabled.
pub as_send_to_quiet :
    (e : Env) (tgt s bits : ℕ) (c : Ctl)
    → task_slot tgt c ≡ some s
    → (task_at s c).as_pending < 2 ^ 32
    → bits < 2 ^ 32
    → ((i : ℕ)
        → bit i bits ≡ 1
        → (bit i (task_at s c).as_pending ≡ 1)
          ⊎ ((bit i (task_at s c).as_mask ≡ 0) × (bit i as_forced ≡ 0)))
    → (as_send_to e tgt bits c).kills ≡ []
unfolding as_send_to
as_send_to_quiet e tgt s bits c at hp hb none_new = rw (at, as_send_to) (rw no_trigger)
  where
    t : Task
    t = task_at s c

    no_trigger : triggered t bits ≡ 0
    no_trigger = bit_ext (triggered t bits) 0 λ i. elim (ℕ_discrete (bit i bits) 1) [
      | yes sent ↦ omega (arith, bit-zero i, bit-triggered i t bits hp hb, none_new i sent)
      | no unsent ↦ omega (arith, bit-zero i, bit-triggered i t bits hp hb, bit-lt i bits)
    ]

-- As_read returns the pending bits that were asked for or are forced, and leaves the others
-- pending; a request of 0 asks for the mask.
pub as_read_splits :
    (s arg : ℕ) (c : Ctl)
    → s < length c.tasks
    → (task_at s c).as_pending < 2 ^ 32
    → let (req, caught, c') = as_read s arg c in
      (req ≡ (if arg == 0 then (task_at s c).as_mask else arg))
      × ((i : ℕ)
          → (bit i caught
              ≡ min (max (bit i req) (bit i as_forced)) (bit i (task_at s c).as_pending))
            × (bit i (task_at s c').as_pending
                ≡ min (bit i (task_at s c).as_pending) (1 - max (bit i req) (bit i as_forced))))
unfolding as_read
as_read_splits s arg c inside hp = (
  refl,
  λ i. (
    omega (arith, bit-bit_and i (bit_or req as_forced) p, bit-bit_or i req as_forced),
    ap (λ (t : Task). bit i t.as_pending) (task_at-put s _ c inside)
        ∙ omega (
          arith,
          bit-clear i p (bit_and (bit_or req as_forced) p) hp
              (omega (arith, bit_and-le_right (bit_or req as_forced) p)),
          bit-bit_and i (bit_or req as_forced) p,
          bit-bit_or i req as_forced,
          bit-lt i p,
          bit-lt i req,
          bit-lt i as_forced,
        ),
  ),
)
  where
    p : ℕ
    p = (task_at s c).as_pending

    req : ℕ
    req = if arg == 0 then (task_at s c).as_mask else arg

-- The mask that each operation of As_mask leaves, bit by bit.
abbrev pub masked_bit : ℕ → ℕ → ℕ → ℕ
masked_bit op m a = if op == 1 then max m a else if op == 2 then a else min m (1 - a)

mask_op-bits :
    (msk pend arg op i : ℕ)
    → msk < 2 ^ 32
    → arg < 2 ^ 32
    → bit i (mask_op msk pend arg op).mask ≡ masked_bit op (bit i msk) (bit i arg)
unfolding mask_op
mask_op-bits msk pend arg op i hm ha = ground (
  arith,
  bit-clear' i arg msk ha hm,
  bit-clear' i msk arg hm ha,
  bit-bit_or i msk arg,
  bit-zero i,
  bit-lt i arg,
  bit-lt i msk,
)

mask_op-trig :
    (msk pend arg op i : ℕ)
    → msk < 2 ^ 32
    → arg < 2 ^ 32
    → (op ≡ 1) ⊎ (op ≡ 2)
    → bit i arg ≡ 1
    → bit i msk ≡ 0
    → bit i pend ≡ 1
    → (mask_op msk pend arg op).trig ≢ 0
unfolding mask_op
mask_op-trig msk pend arg op i hm ha which asked hidden waiting zero_trig =
    ground (arith, new_bit, raised (newly msk arg) new_bit, raised arg asked, bit-zero i)
  where
    new_bit : bit i (newly msk arg) ≡ 1
    new_bit = omega (arith, bit-clear' i arg msk ha hm)

    raised : (x : ℕ) → bit i x ≡ 1 → bit i (bit_and (bit_or x as_forced_mask) pend) ≡ 1
    raised x h = omega (
      arith,
      bit-bit_and i (bit_or x as_forced_mask) pend,
      bit-bit_or i x as_forced_mask,
      bit-lt i as_forced_mask,
    )

mask_op_out :
    (msk pend arg op : ℕ)
    → (mask_op msk pend arg op).out ≡ (if op == 2 then msk else (mask_op msk pend arg op).mask)
unfolding mask_op
mask_op_out msk pend arg op = ground arith

-- As_mask adds bits to the caller's mask (1), sets the mask (2) or clears bits of it; it writes
-- back the old mask for 2 and the new one otherwise.
pub as_mask_op_lem :
    (e : Env) (s arg op : ℕ) (c : Ctl)
    → s < length c.tasks
    → (task_at s c).as_mask < 2 ^ 32
    → arg < 2 ^ 32
    → let (out, o) = as_mask_op e s arg op c in
      ((i : ℕ)
        → bit i (task_at s o.after).as_mask
          ≡ masked_bit op (bit i (task_at s c).as_mask) (bit i arg))
      × (out ≡ (if op == 2 then (task_at s c).as_mask else (task_at s o.after).as_mask))
unfolding as_mask_op
as_mask_op_lem e s arg op c inside hm ha = (
  λ i.
      ap (λ (t : Task). bit i t.as_mask) (task_at-put s _ c inside)
      ∙ mask_op-bits (task_at s c).as_mask (task_at s c).as_pending arg op i hm ha,
  mask_op_out m p arg op
      ∙ ap (λ (k : ℕ). if op == 2 then m else k)
          (sym (ap (λ (t : Task). t.as_mask) (task_at-put s _ c inside))),
)
  where
    m : ℕ
    m = (task_at s c).as_mask

    p : ℕ
    p = (task_at s c).as_pending

-- A signal that is pending when As_mask newly enables it (by adding it to the mask or setting the
-- mask) is sent to the caller's thread at once, where signals are delivered.
pub as_mask_op_delivers :
    (e : Env) (s arg op i : ℕ) (c : Ctl)
    → (task_at s c).as_mask < 2 ^ 32
    → arg < 2 ^ 32
    → CanKick e (task_at s c)
    → (op ≡ 1) ⊎ (op ≡ 2)
    → bit i arg ≡ 1
    → bit i (task_at s c).as_mask ≡ 0
    → bit i (task_at s c).as_pending ≡ 1
    → (rest : List Kill) × ((as_mask_op e s arg op c).1.kills ≡ usr1 (task_at s c) ∷ rest)
unfolding as_mask_op
as_mask_op_delivers e s arg op i c hm ha can which asked hidden waiting =
    kick_if-usr1 e (task_at s c) _ can (
      mask_op-trig (task_at s c).as_mask (task_at s c).as_pending arg op i hm ha which asked hidden
        waiting)
