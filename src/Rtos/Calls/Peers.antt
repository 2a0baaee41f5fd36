-- ===== src/Rtos/Calls/Peers.antt =====
-- P_ident finds the process that P_name names.
use tnc640unix.Base.{
  ℕ, ◌-◌, ◌^◌, ◌≤◌, ◌≡◌, ◌≢◌, ap, subst, sym, ◌∙◌, Bool, true, false, ◌&&◌, not, none, some, List,
  [], ◌∷◌, ◌++◌, arith, ◌==◌, length, take, take_of_le, get_elem?, bytes_eq_refl,
}
use tnc640unix.Rtos.Table.{find_slot, find_slot-some, find_slot-exists}
use tnc640unix.Rtos.Names.{name_eq, after_first, canon_pname}
use tnc640unix.Rtos.State.{Task, Ctl, Caller, Env}
use tnc640unix.Rtos.Tasks.{is_empty, task_slot, task_at, proc_by_name}
use tnc640unix.Rtos.Tasks.Registry.{TasksOk, task_at-get}
use tnc640unix.Rtos.Queues.Send.{c_string}
use tnc640unix.Rtos.Calls.{group_name, group_of, p_name, IdentKnobs, p_ident}

-- A name without NUL and colon, that P_name's buffer holds
pub record Plain (name : List ℕ) : Type 0 where
  pub short : length name ≤ 28
  pub text : c_string (name ++ (0 ∷ [])) ≡ name
  pub uncut : after_first b':' name ≡ none

abbrev asked : List ℕ → Task → Bool
asked name t = t.used && (not (is_empty t.pname) && name_eq t.pname (canon_pname (some name)))

asked-parts :
    (name : List ℕ) (u : Task)
    → asked name u ≡ true
    → (u.used ≡ true) × (name_eq u.pname (canon_pname (some name)) ≡ true)
asked-parts name u h = ground arith

group_name-parts :
    (tgid : ℕ) (t : Task) → group_name tgid t ≡ true → (t.used ≡ true) × (is_empty t.pname ≡ false)
group_name-parts tgid t h = ground arith

canon_pname-Plain : (name : List ℕ) → Plain name → canon_pname (some name) ≡ name
unfolding canon_pname
canon_pname-Plain name p = rw p.uncut (take_of_le 31 name (omega (arith, p.short)))

-- What P_name stores for a task of a group that has a name
p_name-group :
    (w : Caller) (tid s g : ℕ) (c : Ctl)
    → tid ≢ 2 ^ 32 - 1
    → task_slot tid c ≡ some s
    → find_slot (group_name (task_at s c).tgid) c.tasks ≡ some g
    → Plain (task_at g c).pname
    → p_name w tid c ≡ (task_at g c).pname ++ (0 ∷ [])
unfolding p_name
p_name-group w tid s g c other slot group plain =
    let no : (tid == 2 ^ 32 - 1) ≡ false = ground arith in
    let long : take 31 (task_at g c).pname ≡ (task_at g c).pname =
      take_of_le 31 _ (omega (arith, plain.short)) in
    rw (no, slot, group_of, group, long) (ap (λ n. n ++ (0 ∷ [])) (take_of_le 28 _ plain.short))

-- A lookup of the name of a used task answers the id of a used task that has this name.
proc_by_name-found :
    (name : List ℕ) (c : Ctl) (g : ℕ) (t : Task)
    → Plain name
    → get_elem? c.tasks g ≡ some t
    → t.used ≡ true
    → t.pname ≡ name
    → is_empty name ≡ false
    → (j : ℕ) × (u : Task) × (get_elem? c.tasks j ≡ some u)
      × (u.used ≡ true)
      × (name_eq u.pname name ≡ true)
      × (proc_by_name (some name) c ≡ u.id)
unfolding proc_by_name
proc_by_name-found [] c g t plain at used named full = cc
proc_by_name-found (x ∷ name) c g t plain at used named full =
    let n : List ℕ = x ∷ name in
    let (j, found) = find_slot-exists (asked n) c.tasks g t at passes in
    let (u, there, hit) = find_slot-some (asked n) c.tasks j found in
    (
      j,
      u,
      there,
      (asked-parts n u hit).0,
      hit-named u hit,
      rw found (ap (λ v. v.id) (task_at-get c j there)),
    )
  where
    passes : asked (x ∷ name) t ≡ true
    passes =
        rw (used, named, canon_pname-Plain (x ∷ name) plain) (bytes_eq_refl (take 31 (x ∷ name)))

    hit-named : (u : Task) → asked (x ∷ name) u ≡ true → name_eq u.pname (x ∷ name) ≡ true
    hit-named u h =
        subst (λ m. name_eq u.pname m ≡ true) (canon_pname-Plain (x ∷ name) plain)
          (asked-parts (x ∷ name) u h).1

-- Where process names are registered: the name that P_name stores for a task of another process,
-- a name without NUL and colon of at most 28 characters, leads P_ident to a task, of id not 0,
-- that has the name of that process.
pub p_ident-p_name :
    (e : Env) (k : IdentKnobs) (w : Caller) (tid s g : ℕ) (c : Ctl)
    → e.pname_reg ≡ true
    → TasksOk c
    → tid ≢ 2 ^ 32 - 1
    → task_slot tid c ≡ some s
    → find_slot (group_name (task_at s c).tgid) c.tasks ≡ some g
    → Plain (task_at g c).pname
    → (u : Task) × (j : ℕ) × (get_elem? c.tasks j ≡ some u)
      × (u.used ≡ true)
      × (name_eq u.pname (task_at g c).pname ≡ true)
      × (p_ident e k w (some (c_string (p_name w tid c))) c ≡ (u.id, c))
unfolding p_ident
p_ident-p_name e k w tid s g c reg ok other slot group plain =
    let (t, at, hit) = find_slot-some (group_name (task_at s c).tgid) c.tasks g group in
    let same = task_at-get c g at in
    let (used, full) = group_name-parts (task_at s c).tgid t hit in
    let (j, u, there, live, named, found) =
      proc_by_name-found (task_at g c).pname c g t plain at used (ap (λ v. v.pname) (sym same))
        (ap (λ v. is_empty v.pname) same ∙ full) in
    let low = (ok.ids.range j u there live).0 in
    let text : c_string (p_name w tid c) ≡ (task_at g c).pname =
      ap c_string (p_name-group w tid s g c other slot group plain) ∙ plain.text in
    (u, j, there, live, named, rw text (simp (found, reg) (ground arith)))
