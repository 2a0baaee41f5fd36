-- ===== src/Rtos/Tests/Names.antt =====
-- The theorems on names, ids, addresses, serials and regions at concrete tables.
use tnc640unix.Base.{
  ℕ, zero, suc, ◌≡◌, refl, sym, ap, inr, true, false, none, some, List, [], ◌∷◌, ◌++◌, arith, codes,
  pos, get_elem?,
}
use tnc640unix.Rtos.Table.{find_slot}
use tnc640unix.Rtos.State.{Queue, Env, default_env, no_queue}
use tnc640unix.Rtos.Names.{q_basename, split_last, occurs, starts}
use tnc640unix.Rtos.Queues.{is_used, queue_id, q_slot, q_create, q_delete}
use tnc640unix.Rtos.Queues.Ident.{q_ident}
use tnc640unix.Rtos.Queues.Naming.{Place, Finds, q_create-q_find_slot}
use tnc640unix.Rtos.Queues.Registry.{QueuesOk, q_create-QueuesOk, q_delete_forgets}
use tnc640unix.Rtos.Queues.Routing.{q_ident_compound}
use tnc640unix.Rtos.Queues.Serials.{Numbered, serials_without_gap}
use tnc640unix.Rtos.Queues.Serials.Operations.{
  Operation, ticks, events, reads, taken, operate, run, marks, InOrder, KeepsUp, following,
}
use tnc640unix.Rtos.Queues.Fifo.{contents}
use tnc640unix.Rtos.Queues.Send.{deliver, renumber}
use tnc640unix.Rtos.Queues.Ring.{make_room, append, dequeue}
use tnc640unix.Rtos.Regions.{reg_ident, has_name, reg_ident_long_name}
use tnc640unix.Rtos.Tests.{first_thread, second_thread, one_task, its_queue, one_queue}

-- "Q_SQL.tmp", whose base name is "Q_SQL"
abbrev sql : List ℕ
sql = codes "Q_SQL.tmp"

free-Place : Place (q_basename (some sql)) 1 one_queue
unfolding find_slot q_basename split_last
free-Place = inr (refl, refl)

q_create-q_find_slot_example :
    Finds
      (q_basename (some sql))
      1
      (q_create default_env second_thread (some sql) 4 0x2000002 one_queue)
q_create-q_find_slot_example =
    q_create-q_find_slot default_env second_thread sql 4 0x2000002 1 one_queue free-Place

first_only :
    (i : ℕ) (q : Queue)
    → get_elem? one_queue.queues i ≡ some q
    → q.used ≡ true
    → (i ≡ 0) × (q.id ≡ 0x300)
first_only zero q h u = (refl, sym (ap queue_id (cut h)))
  where
    cut : some its_queue ≡ some q → its_queue ≡ q
    cut e = cc
first_only (suc zero) q h u = absurd (go (ap is_used (cut h)))
  where
    cut : some no_queue ≡ some q → no_queue ≡ q
    cut e = cc

    go : false ≡ q.used → ⊥
    go e = cc
first_only (suc (suc i)) q h u = cc

pub queues_ok : QueuesOk one_queue
queues_ok = (
  record {
    range = λ i q at u. let (_, e) = first_only i q at u in omega (arith, e);
    distinct = λ i j q p ai aj uq up _.
        let (ei, _) = first_only i q ai uq in
        let (ej, _) = first_only j p aj up in omega (arith, ei, ej);
  },
  omega arith,
)

q_create-QueuesOk_example : QueuesOk (q_create default_env first_thread (some sql) 4 0 one_queue).1
q_create-QueuesOk_example =
    q_create-QueuesOk default_env first_thread (some sql) 4 0 one_queue (omega arith) queues_ok

q_delete_forgets_example :
    ((q_delete 0x300 one_queue).0 ≡ pos 0)
    × (q_slot 0x300 (q_delete 0x300 one_queue).1 ≡ none)
    × QueuesOk (q_delete 0x300 one_queue).1
unfolding find_slot
q_delete_forgets_example = q_delete_forgets 0x300 0 one_queue refl queues_ok

-- "Nc/startup.QStartUp", where only QStartUp is a queue
q_ident_compound_example :
    q_ident default_env first_thread (codes "Nc/startup.QStartUp") one_queue ≡ (0x300, one_queue)
unfolding find_slot split_last occurs starts
q_ident_compound_example =
    q_ident_compound default_env first_thread b'N' (codes "c/startup") (codes "QStartUp") 0
      one_queue refl (omega arith) refl refl refl refl refl refl (omega arith)

abbrev numbering : Env
numbering = record default_env { wm_serial_fix = true }

abbrev wm_queue : Queue
wm_queue = record its_queue { name = codes "WMQ107"; wm_last_serial = 4 }

-- Event 5 of winmgr, a read of it, a tick, and event 6
abbrev wm_run : List Operation
wm_run =
    events 0 0 (1 ∷ 0 ∷ 0 ∷ 0 ∷ 5 ∷ 0 ∷ 0 ∷ 0 ∷ [])
    ∷ reads
    ∷ ticks 0 0 (0x61 ∷ 0x30 ∷ 0 ∷ 0 ∷ 0 ∷ 0 ∷ 0 ∷ 0 ∷ [])
    ∷ events 0 0 (1 ∷ 0 ∷ 0 ∷ 0 ∷ 6 ∷ 0 ∷ 0 ∷ 0 ∷ [])
    ∷ []

numbered : Numbered 4 4 4 wm_queue
unfolding starts marks following
numbered = record {
  name = refl;
  account = record { sum = refl; stored = refl; fits = omega arith };
  ring = record { ordered = omega arith; bounded = omega arith; low = omega arith; slots = refl };
  unread = refl;
  ends = refl;
}

in_order : InOrder 4 wm_run
unfolding InOrder
in_order = (omega arith, refl, (omega arith, (omega arith, refl, refl)))

keeps_up : KeepsUp numbering wm_run wm_queue
unfolding KeepsUp operate deliver renumber make_room append taken dequeue starts
keeps_up = (omega arith, omega arith, (omega arith, omega arith, (omega arith, omega arith, refl)))

serials_without_gap_example :
    marks (run numbering wm_run wm_queue).0 ++ marks (contents (run numbering wm_run wm_queue).1)
    ≡ following 4 3
serials_without_gap_example =
    serials_without_gap numbering refl wm_run 4 4 4 wm_queue numbered in_order keeps_up

reg_ident_long_name_example :
    ((reg_ident (codes "IPO_SHARED_MEMORY_0001") one_task).0 ≡ 0x4000)
    × (find_slot
          (has_name (codes "IPO_SHARED_MEMORY_0001"))
          (reg_ident (codes "IPO_SHARED_MEMORY_0001") one_task).1.regs
        ≡ none)
unfolding find_slot
reg_ident_long_name_example =
    reg_ident_long_name (codes "IPO_SHARED_MEMORY_0001") 0 one_task (omega arith) refl refl
