-- ===== src/Rtos/Queues/Ident.antt =====
-- Q_ident: which queue a name stands for.
use tnc640unix.Base.{
  ℕ, Bool, true, false, ◌&&◌, ◌||◌, not, Option, none, some, List, [], ◌∷◌, if◌then◌else◌, ◌==◌,
  codes,
}
use tnc640unix.Rtos.Names.{q_basename, q_is_probe_name, occurs, split_last}
use tnc640unix.Rtos.State.{Ctl, Caller, Env}
use tnc640unix.Rtos.Queues.{is_empty, q_slot, queue_at, put_queue, q_find_slot, q_create}

-- The id in a slot; 0 for no slot.
abbrev pub id_in : Ctl → Option ℕ → ℕ
id_in c none = 0
id_in c (some s) = (queue_at s c).id

abbrev pub synth_in : Ctl → Option ℕ → Bool
synth_in c none = false
synth_in c (some s) = not ((queue_at s c).synth == 0)

abbrev pub has_dot : List ℕ → Bool
has_dot nm = elim (split_last b'.' nm) [ none ↦ false | some p ↦ true ]

-- ".X" without a further dot: the id of queue X, 0 if there is none or the name has another form.
unfoldable pub dot_lead : Env → List ℕ → Ctl → ℕ
dot_lead e [] c = 0
dot_lead e (x ∷ rest) c =
    if e.qident_dotlead && (x == b'.' && (not (is_empty rest) && not (has_dot rest)))
    then id_in c (q_find_slot rest c)
    else 0

-- The id of a queue that is not a stand-in
abbrev pub real_id : Ctl → Option ℕ → ℕ
real_id c o = if synth_in c o then 0 else id_in c o

abbrev pub compound_of : Ctl → Option (List ℕ × List ℕ) → ℕ
compound_of c none = 0
compound_of c (some (before, after)) =
    if not (is_empty before) && not (is_empty after) then real_id c (q_find_slot after c) else 0

-- "<mailslot>.<queue>": the id of the real queue behind the last dot, 0 if there is none.
unfoldable pub compound : List ℕ → Ctl → ℕ
compound nm c = compound_of c (split_last b'.' nm)

abbrev pub mark_synth : Ctl → Option ℕ → Ctl
mark_synth c none = c
mark_synth c (some s) = put_queue s (record (queue_at s c) { synth = 1 }) c

-- A synthetic sink for an absent peer
unfoldable pub auto_create : Env → Caller → List ℕ → Ctl → ℕ × Ctl
auto_create e w base c =
    let (id, d) = q_create e w (some base) 2 0 c in (id, mark_synth d (q_slot id d))

-- The end of `q_ident`: `id` is the base name's queue, `other` the compound name's, or 0.
unfoldable pub ident_end : Env → Caller → List ℕ → List ℕ → ℕ → ℕ → Ctl → ℕ × Ctl
unfolding auto_create
ident_end e w nm base id other c =
    if id == 0 && occurs (codes "mmi.qHF") nm
    then (0, c)
    else if not (other == 0)
    then (other, c)
    else if id == 0 && (e.q_autocreate && not (q_is_probe_name base))
    then auto_create e w base c
    else (id, c)

-- The compound name's queue, where the base name has none or a stand-in
unfoldable pub ident_other : Env → List ℕ → List ℕ → Option ℕ → Ctl → ℕ
unfolding compound
ident_other e nm base found c =
    if (id_in c found == 0 || synth_in c found) && (e.qident_notify && not (is_empty base))
    then compound nm c
    else 0

-- `q_ident` behind the leading-dot test.
unfoldable pub ident_rest : Env → Caller → List ℕ → List ℕ → Ctl → ℕ × Ctl
unfolding ident_other ident_end
ident_rest e w nm base c =
    let found = q_find_slot base c in
    ident_end e w nm base (id_in c found) (ident_other e nm base found c) c

-- `q_ident` of a name that is not null.
unfoldable pub q_ident : Env → Caller → List ℕ → Ctl → ℕ × Ctl
unfolding dot_lead ident_rest
q_ident e w nm c =
    let led = dot_lead e nm c in
    if not (led == 0) then (led, c) else ident_rest e w nm (q_basename (some nm)) c
