-- ===== src/Rtos/Shape/Queues.antt =====
-- Making, finding and deleting queues keep the shape of the segment.
use tnc640unix.Base.{
  ℕ, ◌≡◌, refl, sym, ap, subst, Every, ◌+◌, ◌%◌, ◌^◌, ◌≤◌, ◌∙◌, ◌==◌, Option, none, some, List,
  arith, length, ◌&&◌, not,
}
use tnc640unix.Rtos.Table.Ids.{free_slot}
use tnc640unix.Rtos.Names.{name_chars, q_basename}
use tnc640unix.Rtos.State.{Ctl, Env, Caller, Queue}
use tnc640unix.Rtos.Tasks.{task_self}
use tnc640unix.Rtos.Queues
use tnc640unix.Rtos.Queues.{
  queue_id, q_slot, queue_at, put_queue, q_find_slot, deleted, q_delete, notify_of, adopt,
  new_queue, q_fill, q_create_at, q_create,
}
use tnc640unix.Rtos.Queues.Ident.{
  mark_synth, auto_create, ident_end, ident_rest, ident_other, id_in, q_ident,
}
use tnc640unix.Rtos.Shape.{
  Sizes, Shaped, QueueShape, MsgShape, stored-short, queue_at-Shape, put_queue-Shaped,
  counters-Shaped,
}
use tnc640unix.Rtos.Shape.Kernel.{shapes, choose-keeps, lookup-Shaped, task_self-Shaped}

-- A change of a queue that leaves its name and its ring's slots alone
pub reaccount : (q r : Queue) → r.name ≡ q.name → r.msg ≡ q.msg → QueueShape q → QueueShape r
reaccount q r a b h = record {
  name = subst (λ s. length s ≤ name_chars) (sym a) h.name;
  slots = ap length b ∙ h.slots;
  bodies = subst (Every MsgShape) (sym b) h.bodies;
}

module _ (z : Sizes) where
  pub rewrite-Shaped :
      (s : ℕ) (r : Queue) (c : Ctl)
      → r.name ≡ (queue_at s c).name
      → r.msg ≡ (queue_at s c).msg
      → Shaped z c
      → Shaped z (put_queue s r c)
  rewrite-Shaped s r c a b h =
      put_queue-Shaped z c h s r (reaccount (queue_at s c) r a b (queue_at-Shape z c h s))

  pub q_delete-Shaped : (id : ℕ) (c : Ctl) → Shaped z c → Shaped z (q_delete id c).1
  unfolding q_delete
  q_delete-Shaped id c h = lookup-Shaped z _ _ _ h λ s.
      let old = queue_at-Shape z c h s in
      put_queue-Shaped z c h s (deleted (queue_at s c))
        (record { name = omega arith; slots = old.slots; bodies = old.bodies })

  q_fill-Shaped :
      (base : List ℕ) (depth flags owner : ℕ) (c : Ctl) (o : Option ℕ)
      → Shaped z c
      → Shaped z (q_fill base depth flags owner c o).1
  unfolding q_fill
  q_fill-Shaped base depth flags owner c none h = h
  q_fill-Shaped base depth flags owner c (some s) h =
      let old = queue_at-Shape z c h s in
      put_queue-Shaped z _
        (counters-Shaped z c h c.next_task c.next_sem ((c.next_q + 1) % 2 ^ 32) c.next_reg
          c.orphan_tc)
        s (new_queue base depth flags owner c.next_q (queue_at s c))
        (record { name = stored-short base; slots = old.slots; bodies = old.bodies })

  adopt-Shape : (owner nbits : ℕ) (q : Queue) → QueueShape q → QueueShape (adopt owner nbits q)
  adopt-Shape owner nbits q h =
      choose-keeps QueueShape (not (nbits == 0) && q.notify_bits == 0)
        (record q { owner = owner; notify_bits = nbits; synth = 0 }) (record q { synth = 0 })
        (record { name = h.name; slots = h.slots; bodies = h.bodies })
        (record { name = h.name; slots = h.slots; bodies = h.bodies })

  q_create_at-Shaped :
      (base : List ℕ) (depth flags owner : ℕ) (c : Ctl) (o : Option ℕ)
      → Shaped z c
      → Shaped z (q_create_at base depth flags owner c o).1
  unfolding q_create_at
  q_create_at-Shaped base depth flags owner c none h =
      q_fill-Shaped base depth flags owner c (free_slot Queues.is_used queue_id c.queues) h
  q_create_at-Shaped base depth flags owner c (some s) h =
      put_queue-Shaped z c h s _
        (adopt-Shape owner (notify_of flags) (queue_at s c) (queue_at-Shape z c h s))

  pub q_create-Shaped :
      (e : Env) (w : Caller) (nm : Option (List ℕ)) (depth flags : ℕ) (c : Ctl)
      → Shaped z c
      → Shaped z (q_create e w nm depth flags c).1
  unfolding q_create
  q_create-Shaped e w nm depth flags c h =
      let own = task_self e w c in
      let base = q_basename nm in
      q_create_at-Shaped base depth flags own.0 own.1 (q_find_slot base own.1)
        (task_self-Shaped z e w c h)

  mark_synth-Shaped : (c : Ctl) (o : Option ℕ) → Shaped z c → Shaped z (mark_synth c o)
  mark_synth-Shaped c none h = h
  mark_synth-Shaped c (some s) h = rewrite-Shaped s _ c refl refl h

  auto_create-Shaped :
      (e : Env) (w : Caller) (base : List ℕ) (c : Ctl)
      → Shaped z c
      → Shaped z (auto_create e w base c).1
  unfolding auto_create
  auto_create-Shaped e w base c h = mark_synth-Shaped _ _ (q_create-Shaped e w (some base) 2 0 c h)

  ident_end-Shaped :
      (e : Env) (w : Caller) (nm base : List ℕ) (id other : ℕ) (c : Ctl)
      → Shaped z c
      → Shaped z (ident_end e w nm base id other c).1
  unfolding ident_end
  ident_end-Shaped e w nm base id other c h =
      let made = auto_create-Shaped e w base c h in search (shapes, made, h)

  pub q_ident-Shaped :
      (e : Env) (w : Caller) (nm : List ℕ) (c : Ctl) → Shaped z c → Shaped z (q_ident e w nm c).1
  unfolding q_ident ident_rest
  q_ident-Shaped e w nm c h =
      let base = q_basename (some nm) in
      let found = q_find_slot base c in
      let rest = ident_end-Shaped e w nm base (id_in c found) (ident_other e nm base found c) c h in
      search (shapes, rest, h)
