-- ===== src/Rtos/Queues/Registry.antt =====
-- The queue table under Q_create and Q_delete: ids stay unique, and a deleted queue is gone.
use tnc640unix.Base.{
  ℕ, ◌+◌, ◌^◌, ◌≤◌, ◌<◌, ◌≡◌, refl, sym, ap, subst, ◌∙◌, inl, inr, Option, none, some, List, arith,
  length, set, get_elem?-lt, get_elem?-eq-get_or, Option-cases, ℤ, pos, negsuc,
}
use tnc640unix.Rtos.Table.{find_slot}
use tnc640unix.Rtos.Table.Ids.{Ids, Ids-alloc, Ids-update, free_slot, id_slot-some, set-cases}
use tnc640unix.Rtos.Names.{q_basename}
use tnc640unix.Rtos.State.{Queue, Ctl, Caller, Env, no_queue}
use tnc640unix.Rtos.Tasks.{task_self, register, is_thread, task_id}
use tnc640unix.Rtos.Queues.{
  is_used, queue_id, q_slot, queue_at, put_queue, q_find_slot, deleted, q_delete, notify_of, adopt,
  new_queue, q_fill, q_create_at, q_create,
}
use tnc640unix.Rtos.Queues.Channel.{task_self-queues}
use tnc640unix.Rtos.Queues.Naming.{found-lt}

-- The ids in use are distinct, and come from the counter, which starts at 0x300.
abbrev pub QueuesOk : Ctl → Type 0
QueuesOk c = Ids is_used queue_id 0x300 c.next_q c.queues × 0x300 ≤ c.next_q

register-next_q :
    (e : Env) (w : Caller) (c : Ctl) (o : Option ℕ) → (register e w c o).1.next_q ≡ c.next_q
unfolding register
register-next_q e w c none = refl
register-next_q e w c (some s) = refl

task_self-next_q : (e : Env) (w : Caller) (c : Ctl) → (task_self e w c).1.next_q ≡ c.next_q
unfolding task_self
task_self-next_q e w c = elim (Option-cases (find_slot (is_thread w) c.tasks)) [
  | inl h ↦ rw (h, task_self) (register-next_q e w c (free_slot _ task_id c.tasks))
  | inr (s, h) ↦ rw (h, task_self) refl
]

fill-Ids :
    (base : List ℕ) (depth flags owner : ℕ) (c : Ctl) (o : Option ℕ)
    → c.next_q + 1 < 2 ^ 32
    → QueuesOk c
    → QueuesOk (q_fill base depth flags owner c o).1
unfolding q_fill
fill-Ids base depth flags owner c none low ok = ok
fill-Ids base depth flags owner c (some s) low (ids, le) = (
  subst (λ n. Ids is_used queue_id 0x300 n (set c.queues s x)) (omega (arith, low))
      (Ids-alloc is_used queue_id 0x300 c.next_q c.queues s x le refl refl ids),
  omega (arith, low, le),
)
  where
    x : Queue
    x = new_queue base depth flags owner c.next_q (queue_at s c)

create_at-Ids :
    (base : List ℕ) (depth flags owner : ℕ) (c : Ctl) (o : Option ℕ)
    → ((s : ℕ) → o ≡ some s → s < length c.queues)
    → c.next_q + 1 < 2 ^ 32
    → QueuesOk c
    → QueuesOk (q_create_at base depth flags owner c o).1
unfolding q_create_at
create_at-Ids base depth flags owner c none inside low ok =
    fill-Ids base depth flags owner c (free_slot is_used queue_id c.queues) low ok
create_at-Ids base depth flags owner c (some s) inside low (ids, le) = (
  Ids-update is_used queue_id 0x300 c.next_q c.queues s x (queue_at s c)
      (get_elem?-eq-get_or c.queues s no_queue (inside s refl)) (λ u. ground arith) ids,
  le,
)
  where
    x : Queue
    x = adopt owner (notify_of flags) (queue_at s c)

-- Q_create keeps the ids of the queues in use distinct, until the id counter wraps.
pub q_create-QueuesOk :
    (e : Env) (w : Caller) (nm : Option (List ℕ)) (depth flags : ℕ) (c : Ctl)
    → c.next_q + 1 < 2 ^ 32
    → QueuesOk c
    → QueuesOk (q_create e w nm depth flags c).1
unfolding q_create
q_create-QueuesOk e w nm depth flags c low (ids, le) =
    create_at-Ids (q_basename nm) depth flags (task_self e w c).0 d (q_find_slot (q_basename nm) d)
      (λ s h. found-lt (q_basename nm) s d h) (omega (arith, low, task_self-next_q e w c))
      (
        subst (λ qs. Ids is_used queue_id 0x300 d.next_q qs) (sym (task_self-queues e w c))
            (subst (λ n. Ids is_used queue_id 0x300 n c.queues) (sym (task_self-next_q e w c)) ids),
        omega (arith, le, task_self-next_q e w c),
      )
  where
    d : Ctl
    d = (task_self e w c).1

q_delete-slot :
    (id s : ℕ) (c : Ctl)
    → q_slot id c ≡ some s
    → q_delete id c ≡ (pos 0, put_queue s (deleted (queue_at s c)) c)
unfolding q_delete
q_delete-slot id s c at =
    ap
      (λ o. elim o [
        | none ↦ (negsuc 8, c)
        | some s ↦ (pos 0, put_queue s (deleted (queue_at s c)) c)
      ])
      at

-- Q_delete of a queue that exists answers 0 and leaves a table in which its id is no longer found;
-- ids in use stay distinct, so that no other queue answers to it.
pub q_delete_forgets :
    (id s : ℕ) (c : Ctl)
    → q_slot id c ≡ some s
    → QueuesOk c
    → ((q_delete id c).0 ≡ pos 0)
      × (q_slot id (q_delete id c).1 ≡ none)
      × QueuesOk (q_delete id c).1
q_delete_forgets id s c at (ids, le) =
    subst (λ (p : ℤ × Ctl). (p.0 ≡ pos 0) × (q_slot id p.1 ≡ none) × QueuesOk p.1)
      (sym (q_delete-slot id s c at))
      (
        refl,
        gone,
        (
          Ids-update is_used queue_id 0x300 c.next_q c.queues s (deleted (queue_at s c))
              (queue_at s c) (get_elem?-eq-get_or c.queues s no_queue inside) (λ u. cc u) ids,
          le,
        ),
      )
  where
    inside : s < length c.queues
    inside =
        let (y, aty, _, _) = id_slot-some is_used queue_id id c.queues s at in
        get_elem?-lt c.queues s aty

    gone : q_slot id (put_queue s (deleted (queue_at s c)) c) ≡ none
    gone = elim (Option-cases (q_slot id (put_queue s (deleted (queue_at s c)) c))) [
      | inl e ↦ e
      | inr (j, e) ↦
          let (x, atx, ux, ex) =
            id_slot-some is_used queue_id id (set c.queues s (deleted (queue_at s c))) j e in
          let (y, aty, uy, ey) = id_slot-some is_used queue_id id c.queues s at in
          elim (set-cases is_used queue_id c.queues s j (deleted (queue_at s c)) x atx) [
            | inl (_, same) ↦ cc (ux, same)
            | inr (ne, old) ↦ absurd (ne (sym (ids.distinct j s x y old aty ux uy (ex ∙ sym ey))))
          ]
    ]
