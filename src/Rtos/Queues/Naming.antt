-- ===== src/Rtos/Queues/Naming.antt =====
-- Names and ids of queues: what a Q_create leaves for a later lookup, what Q_delete takes away, and
-- the addresses that Q_ident resolves.
use tnc640unix.Base.{
  ℕ, zero, suc, ◌<◌, ◌≡◌, refl, sym, ap, subst, ◌∙◌, ◌⊎◌, inl, inr, true, false, ◌&&◌, none, some,
  List, [], ◌∷◌, arith, length, get_elem?, get_or, set, take, bytes_eq, bytes_eq_refl,
  get_elem?-set_self, get_elem?-lt, get_elem?-eq-get_or, get_or-set_self,
}
use tnc640unix.Rtos.Table.{
  find_slot, find_slot-some, find_slot-none, find_slot-intro, find_slot-set,
}
use tnc640unix.Rtos.Table.Ids.{free_slot, free_slot-some, set-cases}
use tnc640unix.Rtos.Names.{name_eq, stored, name_chars, q_basename}
use tnc640unix.Rtos.State.{Queue, Ctl, Caller, Env, no_queue}
use tnc640unix.Rtos.Tasks.{task_self}
use tnc640unix.Rtos.Queues.{
  is_used, queue_id, queue_at, has_name, q_find_slot, notify_of, adopt, new_queue, q_fill,
  q_create_at, q_create,
}
use tnc640unix.Rtos.Queues.Channel.{task_self-queues}

take-take : (n : ℕ) (xs : List ℕ) → take n (take n xs) ≡ take n xs
take-take zero xs = refl
take-take (suc n) [] = refl
take-take (suc n) (x ∷ xs) = ap (◌∷◌ x) (take-take n xs)

name_eq-stored : (nm : List ℕ) → name_eq (stored nm) nm ≡ true
name_eq-stored nm =
    ap (λ t. bytes_eq t (stored nm)) (take-take name_chars nm) ∙ bytes_eq_refl (stored nm)

-- The new entry is what a lookup of its name finds: no entry before it has the name.
q_fill-found :
    (base : List ℕ) (depth flags owner s : ℕ) (c : Ctl)
    → q_find_slot base c ≡ none
    → free_slot is_used queue_id c.queues ≡ some s
    → q_find_slot base (q_fill base depth flags owner c (some s)).1 ≡ some s
unfolding q_fill
q_fill-found base depth flags owner s c missing free =
    find_slot-intro (has_name base) (set c.queues s x) s x (get_elem?-set_self c.queues s x inside)
      (name_eq-stored base) below
  where
    x : Queue
    x = new_queue base depth flags owner c.next_q (queue_at s c)

    inside : s < length c.queues
    inside =
        let (y, at, _) = free_slot-some is_used queue_id c.queues s free in
        get_elem?-lt c.queues s at

    below :
        (j : ℕ) (y : Queue)
        → j < s
        → get_elem? (set c.queues s x) j ≡ some y
        → has_name base y ≡ false
    below j y lt at = elim (set-cases is_used queue_id c.queues s j x y at) [
      | inl (e, _) ↦ absurd (omega arith)
      | inr (_, old) ↦ find_slot-none (has_name base) c.queues j y missing old
    ]

-- Where Q_create puts a name: the slot that has it, or a free one.
abbrev pub Place : List ℕ → ℕ → Ctl → Type 0
Place base s c =
    (q_find_slot base c ≡ some s)
    ⊎ ((q_find_slot base c ≡ none) × (free_slot is_used queue_id c.queues ≡ some s))

-- A slot found by name lies in the table, in use.
pub found-lt : (base : List ℕ) (s : ℕ) (c : Ctl) → q_find_slot base c ≡ some s → s < length c.queues
found-lt base s c h =
    let (x, at, _) = find_slot-some (has_name base) c.queues s h in get_elem?-lt c.queues s at

adopt-keeps :
    (owner nbits : ℕ) (q : Queue)
    → ((adopt owner nbits q).used ≡ q.used)
      × ((adopt owner nbits q).id ≡ q.id)
      × ((adopt owner nbits q).name ≡ q.name)
adopt-keeps owner nbits q = ground arith

abbrev pub Finds : List ℕ → ℕ → ℕ × Ctl → Type 0
Finds base s r = (q_find_slot base r.1 ≡ some s) × ((queue_at s r.1).id ≡ r.0)

adopt-Finds :
    (base : List ℕ) (depth flags owner s : ℕ) (c : Ctl)
    → q_find_slot base c ≡ some s
    → Finds base s (q_create_at base depth flags owner c (some s))
unfolding q_create_at
adopt-Finds base depth flags owner s c h =
    let (u, i, n) = adopt-keeps owner (notify_of flags) (queue_at s c) in
    (
      find_slot-set (has_name base) c.queues s _ (queue_at s c)
            (get_elem?-eq-get_or c.queues s no_queue inside) (λ k. u k && name_eq (n k) base)
          ∙ h,
      ap (λ q. q.id) (get_or-set_self c.queues s _ no_queue inside) ∙ i,
    )
  where
    inside : s < length c.queues
    inside = found-lt base s c h

fill-Finds :
    (base : List ℕ) (depth flags owner s : ℕ) (c : Ctl)
    → q_find_slot base c ≡ none
    → free_slot is_used queue_id c.queues ≡ some s
    → Finds base s (q_create_at base depth flags owner c none)
unfolding q_create_at q_fill
fill-Finds base depth flags owner s c missing free =
    subst (λ o. Finds base s (q_fill base depth flags owner c o)) (sym free)
      (
        q_fill-found base depth flags owner s c missing free,
        ap (λ q. q.id) (get_or-set_self c.queues s _ no_queue inside),
      )
  where
    inside : s < length c.queues
    inside =
        let (y, at, _) = free_slot-some is_used queue_id c.queues s free in
        get_elem?-lt c.queues s at

create_at-Finds :
    (base : List ℕ) (depth flags owner s : ℕ) (c : Ctl)
    → Place base s c
    → Finds base s (q_create_at base depth flags owner c (q_find_slot base c))
create_at-Finds base depth flags owner s c (inl h) =
    subst (λ o. Finds base s (q_create_at base depth flags owner c o)) (sym h)
      (adopt-Finds base depth flags owner s c h)
create_at-Finds base depth flags owner s c (inr (missing, free)) =
    subst (λ o. Finds base s (q_create_at base depth flags owner c o)) (sym missing)
      (fill-Finds base depth flags owner s c missing free)

-- After a Q_create of a name that is there or that the table has room for, the lookup of that name
-- finds a queue, and its id is the one that Q_create returned.
pub q_create-q_find_slot :
    (e : Env) (w : Caller) (nm : List ℕ) (depth flags s : ℕ) (c : Ctl)
    → Place (q_basename (some nm)) s c
    → Finds (q_basename (some nm)) s (q_create e w (some nm) depth flags c)
unfolding q_create
q_create-q_find_slot e w nm depth flags s c place =
    create_at-Finds base depth flags (task_self e w c).0 s (task_self e w c).1 (
      subst
        (λ qs.
          (find_slot (has_name base) qs ≡ some s)
          ⊎ ((find_slot (has_name base) qs ≡ none) × (free_slot is_used queue_id qs ≡ some s)))
        (sym (task_self-queues e w c)) place)
  where
    base : List ℕ
    base = q_basename (some nm)

-- Q_create is idempotent on names: a second one, by whatever task and with whatever flags, returns
-- the id of the first.
pub q_create_again :
    (e e' : Env) (w w' : Caller) (nm : List ℕ) (depth flags depth' flags' s : ℕ) (c : Ctl)
    → Place (q_basename (some nm)) s c
    → (q_create e' w' (some nm) depth' flags' (q_create e w (some nm) depth flags c).1).0
      ≡ (q_create e w (some nm) depth flags c).0
unfolding q_create
q_create_again e e' w w' nm depth flags depth' flags' s c place =
    ap (λ o. (q_create_at base depth' flags' (task_self e' w' d).0 (task_self e' w' d).1 o).0) still
    ∙ ap (λ qs. (get_or qs s no_queue).id) (task_self-queues e' w' d)
    ∙ (q_create-q_find_slot e w nm depth flags s c place).1
  where
    base : List ℕ
    base = q_basename (some nm)

    d : Ctl
    d = (q_create e w (some nm) depth flags c).1

    still : q_find_slot base (task_self e' w' d).1 ≡ some s
    still =
        ap (find_slot (has_name base)) (task_self-queues e' w' d)
        ∙ (q_create-q_find_slot e w nm depth flags s c place).0
