-- ===== src/Rtos/Tasks/Registry.antt =====
-- What `task_self` promises: one id for each thread, the same on every call.
use tnc640unix.Base.{
  ℕ, ◌+◌, ◌%◌, ◌^◌, ◌≤◌, ◌<◌, ◌≡◌, refl, ap, inl, inr, true, none, some, arith, Option-cases,
  get_elem?, set, length, get_elem?-lt, get_elem?-set_self, get_elem?-eq-get_or, get_elem?-set_ne,
  get_or-set_self, List, ◌⊎◌,
}
use tnc640unix.Rtos.Table.{find_slot, find_slot-some, find_slot-none, find_slot-intro}
use tnc640unix.Rtos.Table.Ids.{Ids, Ids-alloc, id_slot-eq, free_slot, free_slot-some, set-cases}
use tnc640unix.Rtos.State.{Task, Ctl, Caller, Env, no_task}
use tnc640unix.Rtos.Tasks.{
  is_used, task_id, task_slot, task_at, is_thread, new_task, register, task_self,
}

-- The ids are in order, and no thread has two entries.
pub record TasksOk (c : Ctl) : Type 0 where
  pub ids : Ids is_used task_id 0x100 c.next_task c.tasks
  pub started : 0x100 ≤ c.next_task
  pub threads :
      (i j : ℕ) (t u : Task)
      → get_elem? c.tasks i ≡ some t
      → get_elem? c.tasks j ≡ some u
      → t.used ≡ true
      → u.used ≡ true
      → t.tgid ≡ u.tgid
      → t.tid ≡ u.tid
      → i ≡ j

pub task_at-get : (c : Ctl) (s : ℕ) {t : Task} → get_elem? c.tasks s ≡ some t → task_at s c ≡ t
task_at-get c s h = cc (h, get_elem?-eq-get_or c.tasks s no_task (get_elem?-lt c.tasks s h))

is_thread-parts :
    (w : Caller) (t : Task)
    → is_thread w t ≡ true
    → (t.used ≡ true) × (t.tgid ≡ w.tgid) × (t.tid ≡ w.tid)
is_thread-parts w t h = ground arith

is_thread-intro :
    (w : Caller) (t : Task) → t.used ≡ true → t.tgid ≡ w.tgid → t.tid ≡ w.tid → is_thread w t ≡ true
is_thread-intro w t u a b = ground arith

-- What a call of `task_self` leaves behind.
pub record Registered (e : Env) (w : Caller) (c : Ctl) (r : ℕ × Ctl) : Type 0 where
  pub ok : TasksOk r.1
  pub slot : ℕ
  pub found : find_slot (is_thread w) r.1.tasks ≡ some slot
  pub found_by_id : task_slot r.0 r.1 ≡ some slot
  pub named : (task_at slot r.1).id ≡ r.0

known :
    (e : Env) (w : Caller) (c : Ctl) (s : ℕ)
    → TasksOk c
    → find_slot (is_thread w) c.tasks ≡ some s
    → Registered e w c ((task_at s c).id, c)
known e w c s v h =
    let (t, at, hit) = find_slot-some (is_thread w) c.tasks s h in
    let (u, _, _) = is_thread-parts w t hit in
    record {
      ok = v;
      slot = s;
      found = h;
      found_by_id =
          rw (task_at-get c s at)
            (id_slot-eq is_used task_id 0x100 c.next_task c.tasks s t v.ids at u);
      named = refl;
    }

-- An entry for a thread that has none yet.
module _ (w : Caller) (xs : List Task) (s : ℕ) (x : Task)
    (absent : find_slot (is_thread w) xs ≡ none) (tg : x.tgid ≡ w.tgid) (ti : x.tid ≡ w.tid) where
  other :
      (j : ℕ) (y : Task)
      → get_elem? xs j ≡ some y
      → y.used ≡ true
      → y.tgid ≡ w.tgid
      → y.tid ≡ w.tid
      → ⊥
  other j y at u a b = cc (find_slot-none (is_thread w) xs j y absent at, is_thread-intro w y u a b)

  threads-alloc :
      ((i j : ℕ) (t u : Task)
        → get_elem? xs i ≡ some t
        → get_elem? xs j ≡ some u
        → t.used ≡ true
        → u.used ≡ true
        → t.tgid ≡ u.tgid
        → t.tid ≡ u.tid
        → i ≡ j)
      → (i j : ℕ) (t u : Task) → get_elem? (set xs s x) i ≡ some t
      → get_elem? (set xs s x) j ≡ some u
      → t.used ≡ true
      → u.used ≡ true
      → t.tgid ≡ u.tgid
      → t.tid ≡ u.tid
      → i ≡ j
  threads-alloc old i j t u hi hj ut uu a b = elim (set-cases is_used task_id xs s i x t hi) [
    | inl (si, et) ↦ elim (set-cases is_used task_id xs s j x u hj) [
      | inl (sj, eu) ↦ omega arith
      | inr (_, oj) ↦ absurd (
          other j u oj uu (cc (a, ap (λ (y : Task). y.tgid) et, tg))
            (cc (b, ap (λ (y : Task). y.tid) et, ti)))
    ]
    | inr (_, oi) ↦ elim (set-cases is_used task_id xs s j x u hj) [
      | inl (_, eu) ↦ absurd (
          other i t oi ut (cc (a, ap (λ (y : Task). y.tgid) eu, tg))
            (cc (b, ap (λ (y : Task). y.tid) eu, ti)))
      | inr (_, oj) ↦ old i j t u oi oj ut uu a b
    ]
  ]

  find_slot-alloc : s < length xs → x.used ≡ true → find_slot (is_thread w) (set xs s x) ≡ some s
  find_slot-alloc inside ux =
      find_slot-intro (is_thread w) (set xs s x) s x (get_elem?-set_self xs s x inside)
        (is_thread-intro w x ux tg ti)
        λ j y lt at.
          find_slot-none (is_thread w) xs j y absent
            (cc (at, get_elem?-set_ne xs s j x (λ e. omega arith)))

fresh_thread :
    (e : Env) (w : Caller) (c : Ctl) (s : ℕ)
    → TasksOk c
    → c.next_task + 1 < 2 ^ 32
    → find_slot (is_thread w) c.tasks ≡ none
    → free_slot is_used task_id c.tasks ≡ some s
    → Registered e w c (register e w c (some s))
unfolding register
fresh_thread e w c s v small absent free = record {
  ok = record {
    ids = rw no_wrap ids;
    started = omega (arith, v.started);
    threads = threads-alloc w c.tasks s x absent refl refl v.threads;
  };
  slot = s;
  found = find_slot-alloc w c.tasks s x absent refl refl inside refl;
  found_by_id =
      id_slot-eq is_used task_id 0x100 (c.next_task + 1) (set c.tasks s x) s x ids
        (get_elem?-set_self c.tasks s x inside) refl;
  named = ap task_id (get_or-set_self c.tasks s x no_task inside);
}
  where
    x : Task
    x = new_task e w c.next_task (task_at s c)

    inside : s < length c.tasks
    inside =
        let (t, at, _) = free_slot-some is_used task_id c.tasks s free in get_elem?-lt c.tasks s at

    no_wrap : (c.next_task + 1) % 2 ^ 32 ≡ c.next_task + 1
    no_wrap = omega arith

    ids : Ids is_used task_id 0x100 (c.next_task + 1) (set c.tasks s x)
    ids = Ids-alloc is_used task_id 0x100 c.next_task c.tasks s x v.started refl refl v.ids

-- There is an entry for the thread, or room for one.
abbrev pub HasRoom : Caller → Ctl → Type 0
HasRoom w c =
    ((s : ℕ) × (find_slot (is_thread w) c.tasks ≡ some s))
    ⊎ ((s : ℕ) × (free_slot is_used task_id c.tasks ≡ some s))

-- A thread that is registered, or for which there is a free entry, gets a used entry of its own,
-- which both its OS ids and the returned id find.
pub task_self-Registered :
    (e : Env) (w : Caller) (c : Ctl)
    → TasksOk c
    → c.next_task + 1 < 2 ^ 32
    → HasRoom w c
    → Registered e w c (task_self e w c)
unfolding task_self
task_self-Registered e w c v small (inl (s, h)) = rw (h, task_self) (known e w c s v h)
task_self-Registered e w c v small (inr (s, h)) =
    elim (Option-cases (find_slot (is_thread w) c.tasks)) [
      | inl absent ↦ rw (absent, h, task_self) (fresh_thread e w c s v small absent h)
      | inr (i, found) ↦ rw (found, task_self) (known e w c i v found)
    ]

again : (e : Env) (w : Caller) (c : Ctl) (r : ℕ × Ctl) → Registered e w c r → task_self e w r.1 ≡ r
unfolding task_self
again e w c r g = rw (g.found, task_self) (ap (λ (id : ℕ). (id, r.1)) g.named)

-- In a well-formed segment where the thread has an entry or there is room for one, and the id
-- counter does not wrap, a second call of `task_self` returns the id of the first and leaves the
-- segment as it is.
pub task_self-again :
    (e : Env) (w : Caller) (c : Ctl)
    → TasksOk c
    → c.next_task + 1 < 2 ^ 32
    → HasRoom w c
    → task_self e w (task_self e w c).1 ≡ task_self e w c
task_self-again e w c v small room =
    again e w c (task_self e w c) (task_self-Registered e w c v small room)

-- The entry behind a returned id.
entry :
    (e : Env) (w : Caller) (c : Ctl) (r : ℕ × Ctl) (g : Registered e w c r)
    → (t : Task) × (get_elem? r.1.tasks g.slot ≡ some t)
      × (t.used ≡ true)
      × (t.id ≡ r.0)
      × (t.tgid ≡ w.tgid)
      × (t.tid ≡ w.tid)
entry e w c r g =
    let (t, at, hit) = find_slot-some (is_thread w) r.1.tasks g.slot g.found in
    let (u, a, b) = is_thread-parts w t hit in
    (t, at, u, cc (g.named, ap (λ (y : Task). y.id) (task_at-get r.1 g.slot at)), a, b)

new_id :
    (e : Env) (w : Caller) (c : Ctl)
    → HasRoom w c
    → ((s : ℕ) × (find_slot (is_thread w) c.tasks ≡ some s)
        × (task_self e w c ≡ ((task_at s c).id, c)))
      ⊎ ((task_self e w c).0 ≡ c.next_task)
unfolding task_self register
new_id e w c (inl (s, h)) = inl (s, h, rw (h, task_self))
new_id e w c (inr (s, h)) = elim (Option-cases (find_slot (is_thread w) c.tasks)) [
  | inl absent ↦ inr (rw (absent, h, task_self))
  | inr (i, found) ↦ inl (i, found, rw (found, task_self))
]

-- Two threads that call `task_self` one after the other, each with an entry or room for one, get
-- the same id only if they are the same thread of the same process.
pub task_self-injective :
    (e : Env) (w v : Caller) (c : Ctl)
    → TasksOk c
    → c.next_task + 1 < 2 ^ 32
    → HasRoom w c
    → HasRoom v (task_self e w c).1
    → (task_self e v (task_self e w c).1).0 ≡ (task_self e w c).0
    → (v.tgid ≡ w.tgid) × (v.tid ≡ w.tid)
task_self-injective e w v c ok small room room' same =
    let g = task_self-Registered e w c ok small room in
    let d = (task_self e w c).1 in
    let (t, at, u, named, a, b) = entry e w c (task_self e w c) g in
    elim (new_id e v d room') [
      | inl (s, found, r) ↦
          let (t', at', hit) = find_slot-some (is_thread v) d.tasks s found in
          let (u', a', b') = is_thread-parts v t' hit in
          let ids : t'.id ≡ t.id =
            cc (same, ap (λ (q : ℕ × Ctl). q.0) r, named, ap task_id (task_at-get d s at')) in
          let slots : s ≡ g.slot = g.ok.ids.distinct s g.slot t' t at' at u' u ids in
          let tasks : t' ≡ t = cc (at, at', ap (get_elem? d.tasks) slots) in
          (cc (a, a', ap (λ (y : Task). y.tgid) tasks), cc (b, b', ap (λ (y : Task). y.tid) tasks))
      | inr fresh ↦ absurd (omega (arith, same, fresh, named, g.ok.ids.range g.slot t at u))
    ]
