-- ===== src/Rtos/Shape/Kernel.antt =====
-- The operations on tasks, events, signals, semaphores and regions keep the shape of the segment.
use tnc640unix.Base.{
  ℕ, subst, refl, sym, ◌+◌, ◌-◌, ◌%◌, ◌^◌, ◌≤◌, ◌≡◌, Bool, true, false, Option, none, some, List,
  [], arith, if◌then◌else◌, length, bit_and, bit_not, ◌==◌, ◌&&◌, ℤ,
}
use tnc640unix.Rtos.Table.Ids.{free_slot}
use tnc640unix.Rtos.Names.{name_chars, stored}
use tnc640unix.Rtos.State.{Task, Ctl, Env, Caller}
use tnc640unix.Rtos.Tasks
use tnc640unix.Rtos.Tasks.{
  task_slot, task_at, put_task, task_self, register, new_task, is_thread, task_id,
}
use tnc640unix.Rtos.Events.{ev_send, ev_enter, ev_check, ev_turn, tc_bit}
use tnc640unix.Rtos.Rendezvous.{Request, t_create, t_start, Stores, await_start, announce}
use tnc640unix.Rtos.Signals.{Outcome, as_send, as_send_to, as_mask_op, as_read}
use tnc640unix.Rtos.Shape.{
  Sizes, Shaped, TaskShape, SemShape, stored-short, task_at-Shape, sem_at-Shape, put_task-Shaped,
  put_sem-Shaped, put_region-Shaped, counters-Shaped,
}

-- Both branches of a test, and of a lookup
pub choose-Shaped :
    (z : Sizes) (t : Bool) (x y : Ctl) → Shaped z x → Shaped z y → Shaped z (if t then x else y)
choose-Shaped z true x y hx hy = hx
choose-Shaped z false x y hx hy = hy

pub choose_state-Shaped {ℓ} :
    {A : Type ℓ} (z : Sizes) (t : Bool) (x y : A × Ctl)
    → Shaped z x.1
    → Shaped z y.1
    → Shaped z (if t then x else y).1
choose_state-Shaped z true x y hx hy = hx
choose_state-Shaped z false x y hx hy = hy

pub choose-keeps {ℓ} :
    {A : Type ℓ} (P : A → Type 0) (t : Bool) (x y : A) → P x → P y → P (if t then x else y)
choose-keeps P true x y hx hy = hx
choose-keeps P false x y hx hy = hy

pub lookup-keeps {ℓ κ} :
    {A : Type ℓ} {B : Type κ} (P : A → Type 0) (o : Option B) (n : A) (f : B → A)
    → P n
    → ((s : B) → P (f s))
    → P (elim o as (λ t. A) [ none ↦ n | some s ↦ f s ])
lookup-keeps P none n f hn hf = hn
lookup-keeps P (some s) n f hn hf = hf s

pub lookup-Shaped {ℓ κ} :
    {A : Type ℓ} {B : Type κ} (z : Sizes) (o : Option B) (n : A × Ctl) (f : B → A × Ctl)
    → Shaped z n.1
    → ((s : B) → Shaped z (f s).1)
    → Shaped z (elim o as (λ t. A × Ctl) [ none ↦ n | some s ↦ f s ]).1
lookup-Shaped z o n f hn hf = lookup-keeps (λ p. Shaped z p.1) o n f hn hf

pub ruleset shapes = (choose-Shaped, choose_state-Shaped, put_task-Shaped, counters-Shaped)

-- A change of an entry that leaves its names alone
keep_names : (t u : Task) → u.name ≡ t.name → u.pname ≡ t.pname → TaskShape t → TaskShape u
keep_names t u a b h = record {
  name = subst (λ s. length s ≤ name_chars) (sym a) h.name;
  pname = subst (λ s. length s ≤ name_chars) (sym b) h.pname;
}

pub retask-Shaped :
    (z : Sizes) (c : Ctl) (s : ℕ) (u : Task)
    → u.name ≡ (task_at s c).name
    → u.pname ≡ (task_at s c).pname
    → Shaped z c
    → Shaped z (put_task s u c)
retask-Shaped z c s u a b h =
    put_task-Shaped z c h s u (keep_names (task_at s c) u a b (task_at-Shape z c h s))

own_pname-short : (b : Bool) (p : List ℕ) → length (if b then stored p else []) ≤ name_chars
own_pname-short true p = stored-short p
own_pname-short false p = omega arith

module _ (z : Sizes) where
  register-Shaped :
      (e : Env) (w : Caller) (c : Ctl) (o : Option ℕ) → Shaped z c → Shaped z (register e w c o).1
  unfolding register
  register-Shaped e w c none h = h
  register-Shaped e w c (some s) h =
      put_task-Shaped z _
        (counters-Shaped z c h ((c.next_task + 1) % 2 ^ 32) c.next_sem c.next_q c.next_reg
          c.orphan_tc)
        s (new_task e w c.next_task (task_at s c))
        (record {
          name = omega arith;
          pname = own_pname-short (e.pname_reg && (w.tid == w.tgid)) w.self_pname;
        })

  pub task_self-Shaped :
      (e : Env) (w : Caller) (c : Ctl) → Shaped z c → Shaped z (task_self e w c).1
  unfolding task_self
  task_self-Shaped e w c h =
      grind (arith, h, register-Shaped e w c (free_slot Tasks.is_used task_id c.tasks) h)

  pub ev_send-Shaped : (task bits : ℕ) (c : Ctl) → Shaped z c → Shaped z (ev_send task bits c).1
  unfolding ev_send
  ev_send-Shaped task bits c h = lookup-Shaped z _ _ _ h (λ s. retask-Shaped z c s _ refl refl h)

  pub ev_enter-Shaped : (s want : ℕ) (c : Ctl) → Shaped z c → Shaped z (ev_enter s want c)
  unfolding ev_enter
  ev_enter-Shaped s want c h = retask-Shaped z c s _ refl refl h

  pub ev_turn-Shaped :
      (s want cond timeout : ℕ) (expired : Bool) (c : Ctl)
      → Shaped z c
      → Shaped z (ev_turn s want cond timeout expired c).1
  unfolding ev_turn ev_check
  ev_turn-Shaped s want cond timeout expired c h =
      let t = task_at s c in
      let taken = record t {
        nowait_miss = 0;
        events = bit_and t.events (bit_not (bit_and t.events want));
      } in
      let kept = retask-Shaped z c s taken refl refl h in
      let token =
        counters-Shaped z c h c.next_task c.next_sem c.next_q c.next_reg (c.orphan_tc - 1) in
      search (shapes, kept, token, h)

  pub await_start-Shaped :
      (r : Request) (o : Option ℕ) (c : Ctl) → Shaped z c → Shaped z (await_start r o c)
  unfolding await_start
  await_start-Shaped r none c h = h
  await_start-Shaped r (some s) c h = retask-Shaped z c s _ refl refl h

  announce-Shaped : (parent : ℕ) (c : Ctl) → Shaped z c → Shaped z (announce parent c)
  unfolding announce
  announce-Shaped parent c h =
      let token =
        counters-Shaped z c h c.next_task c.next_sem c.next_q c.next_reg
          ((c.orphan_tc + 1) % 2 ^ 32) in
      choose-Shaped z _ _ _ (ev_send-Shaped parent tc_bit c h) token

  pub t_create-Shaped :
      (e : Env) (w : Caller) (r : Request) (c : Ctl) → Shaped z c → Shaped z (t_create e w r c).1
  unfolding t_create
  t_create-Shaped e w r c h =
      let own = task_self e w c in
      let parked = await_start-Shaped r (task_slot own.0 own.1) own.1 (task_self-Shaped e w c h) in
      announce-Shaped r.parent _ parked

  pub t_start-Shaped :
      (bytes : ℕ → ℕ → List ℕ) (id size src : ℕ) (c : Ctl)
      → Shaped z c
      → Shaped z (t_start bytes id size src c).2
  unfolding t_start
  t_start-Shaped bytes id size src c h =
      lookup-keeps (λ (p : ℤ × Stores × Ctl). Shaped z p.2) (task_slot id c) _ _ h
        (λ s. retask-Shaped z c s _ refl refl h)

  as_send_to-Shaped :
      (e : Env) (tgt bits : ℕ) (c : Ctl) → Shaped z c → Shaped z (as_send_to e tgt bits c).after
  unfolding as_send_to
  as_send_to-Shaped e tgt bits c h =
      lookup-keeps (λ (o : Outcome). Shaped z o.after) (task_slot tgt c) _ _ h
        (λ s. retask-Shaped z c s _ refl refl h)

  pub as_send-Shaped :
      (e : Env) (w : Caller) (target bits : ℕ) (c : Ctl)
      → Shaped z c
      → Shaped z (as_send e w target bits c).after
  unfolding as_send
  as_send-Shaped e w target bits c h =
      let own = task_self e w c in
      let registered = task_self-Shaped e w c h in
      choose-keeps (λ (o : Outcome). Shaped z o.after) _ _ _
        (as_send_to-Shaped e own.0 bits own.1 registered) (as_send_to-Shaped e target bits c h)

  pub as_mask_op-Shaped :
      (e : Env) (s arg op : ℕ) (c : Ctl) → Shaped z c → Shaped z (as_mask_op e s arg op c).1.after
  unfolding as_mask_op
  as_mask_op-Shaped e s arg op c h = retask-Shaped z c s _ refl refl h

  pub as_read-Shaped : (s arg : ℕ) (c : Ctl) → Shaped z c → Shaped z (as_read s arg c).2
  unfolding as_read
  as_read-Shaped s arg c h = retask-Shaped z c s _ refl refl h
