-- ===== src/Rtos/Dispatch/Handlers.antt =====
-- The cases of the switch, on a parameter block that is there.
use tnc640unix.Base.{
  ℕ, ◌&&◌, false, not, Option, none, some, List, [], ◌∷◌, ◌++◌, if◌then◌else◌, ◌==◌, bytes32, pos,
  negsuc,
}
use tnc640unix.Rtos.Tasks.{task_slot, task_self}
use tnc640unix.Rtos.Events.{ev_enter, ev_turn}
use tnc640unix.Rtos.Rendezvous.{Request, t_create, t_start}
use tnc640unix.Rtos.Signals
use tnc640unix.Rtos.Signals.{as_send, as_mask_op, as_read}
use tnc640unix.Rtos.Semaphores.{sem_make, sem_ident, sem_request}
use tnc640unix.Rtos.Queues.{q_create}
use tnc640unix.Rtos.Queues.Ident.{q_ident}
use tnc640unix.Rtos.Queues.Send.{q_send}
use tnc640unix.Rtos.Queues.Read
use tnc640unix.Rtos.Queues.Read.{q_read}
use tnc640unix.Rtos.Acks.Config.{inject_connect_ack, inject_forget_ack}
use tnc640unix.Rtos.Acks.Event.{inject_evt_connect_ack, inject_evt_error_reply, release_deferred}
use tnc640unix.Rtos.Acks.Peer.{inject_peer_connect_ack, inject_broadcast_register_reply}
use tnc640unix.Rtos.Calls.{t_ident, t_name, p_name, p_ident, env_get}
use tnc640unix.Rtos.Dispatch.Outcome.{
  Process, Shared, Block, Stored, answers, receives, requests, reads, awaits_start, Result, answer,
  answered_id, id_or, store_at,
}

-- `case 0x00` up to its wait
unfoldable pub call_t_create : Process → Block → Shared → Result
unfolding t_create
call_t_create k p s =
    let r : Request = record { parent = p 12; ctx_dst = p 10; arg_dst = p 6; msgsize = p 2 } in
    let (id, c) = t_create k.env k.caller r s.ctl in
    (awaits_start (task_slot id c) (store_at (p 8) (bytes32 id)), record s { ctl = c })

-- `case 0x02`
unfoldable pub call_t_start : Process → Block → Shared → Result
unfolding t_start
call_t_start k p s =
    let (z, stores, c) = t_start k.bytes (p 4) (p 0) (p 2) s.ctl in
    (answers z stores [], record s { ctl = c })

-- `case 0x11`: the first turn of `ev_receive`
abbrev pub receive_at : Block → Shared → Option ℕ → Result
receive_at p s none = answer (pos 0) s
receive_at p s (some i) =
    let (t, c) = ev_turn i (p 0) (p 1) (p 2) false (ev_enter i (p 0) s.ctl) in
    (receives t, record s { ctl = c })

unfoldable pub call_ev_receive : Process → Block → Shared → Result
unfolding task_self
call_ev_receive k p s =
    let (id, c) = task_self k.env k.caller s.ctl in
    receive_at p (record s { ctl = c }) (task_slot id c)

-- `case 0x12`, `case 0x13` and `case 0x14`
abbrev pub signalled : Shared → Stored → Signals.Outcome → Result
signalled s w o = (answers o.result w o.kills, record s { ctl = o.after })

abbrev pub mask_at : Process → Block → Shared → Option ℕ → Result
mask_at k p s none = answer (negsuc 21) s
mask_at k p s (some i) =
    let arg = if p 0 == 0 then 0 else k.word (p 0) in
    let (out, o) = as_mask_op k.env i arg (p 2) s.ctl in
    signalled s (store_at (p 0) (bytes32 out)) o

unfoldable pub call_as_mask : Process → Block → Shared → Result
unfolding task_self
call_as_mask k p s =
    let (id, c) = task_self k.env k.caller s.ctl in
    mask_at k p (record s { ctl = c }) (task_slot id c)

abbrev pub read_signals_at : Process → Block → Shared → Option ℕ → Result
read_signals_at k p s none = answer (negsuc 21) s
read_signals_at k p s (some i) =
    let arg = if p 0 == 0 then 0 else k.word (p 0) in
    let (req, caught, c) = as_read i arg s.ctl in
    (
      answers (pos 0) (store_at (p 2) (bytes32 caught) ++ store_at (p 0) (bytes32 req)) [],
      record s { ctl = c },
    )

unfoldable pub call_as_read : Process → Block → Shared → Result
unfolding task_self
call_as_read k p s =
    let (id, c) = task_self k.env k.caller s.ctl in
    read_signals_at k p (record s { ctl = c }) (task_slot id c)

-- `case 0x15`, `case 0x16`, `case 0x18` and `case 0x19`
unfoldable pub call_sm_create : Process → Block → Shared → Result
unfolding sem_make
call_sm_create k p s = answered_id s (sem_make (if p 0 == 0 then [] else k.text (p 0)) (p 2) s.ctl)

unfoldable pub call_sm_ident : Process → Block → Shared → Result
unfolding sem_ident
call_sm_ident k p s =
    if p 0 == 0
    then answer (negsuc 1) s
    else id_or (negsuc 1) s (sem_ident k.env (k.text (p 0)) s.ctl)

unfoldable pub call_sm_request : Block → Shared → Result
unfolding sem_request
call_sm_request p s =
    let (t, c) = sem_request (p 0) (p 1) (p 2) s.ctl in (requests t, record s { ctl = c })

-- `case 0x0a` and `case 0x0b`
unfoldable pub call_q_create : Process → Block → Shared → Result
unfolding q_create
call_q_create k p s = answered_id s (
    if p 0 == 0
    then q_create k.env k.caller (some []) 0 0 s.ctl
    else q_create k.env k.caller (some (k.text (p 0))) (p 2) (p 3) s.ctl)

unfoldable pub call_q_ident : Process → Block → Shared → Result
unfolding q_ident
call_q_ident k p s =
    if p 0 == 0
    then answer (negsuc 0) s
    else id_or (negsuc 0) s (q_ident k.env k.caller (k.text (p 0)) s.ctl)

-- The injections behind a Q_send, in their order
unfoldable pub injections : Process → ℕ → List ℕ → Shared → Shared
unfolding inject_connect_ack inject_forget_ack inject_evt_connect_ack inject_peer_connect_ack
    inject_evt_error_reply inject_broadcast_register_reply
injections k target msg s =
    let (a1, c1) = inject_connect_ack k.env k.caller target msg s.acks s.ctl in
    let a2 = inject_forget_ack k.env target msg a1 c1 in
    let (a3, c3) = inject_evt_connect_ack k.env k.knobs k.caller target msg a2 c1 in
    let (a4, c4) = inject_peer_connect_ack k.env k.knobs k.caller msg a3 c3 in
    let (a5, c5) = inject_evt_error_reply k.env k.knobs k.caller target msg a4 c4 in
    let (a6, c6) = inject_broadcast_register_reply k.env k.knobs k.caller msg a5 c5 in
    record { ctl = c6; acks = a6 }

-- `case 0x0d`, of a message that is not null
unfoldable pub call_q_send : Process → Block → Shared → Result
call_q_send k p s =
    let msg = k.bytes (p 0) (p 2) in
    let (z, c) = q_send k.env k.caller (p 4) msg (p 6) s.ctl in
    answer z (injections k (p 4) msg (record s { ctl = c }))

-- What the read of a message still does
abbrev pub after_read : Process → Read.Turn → Shared → Shared
after_read k (Read.message m) s =
    let (a, c) = release_deferred k.env k.knobs k.caller m.body s.acks s.ctl in
    record { ctl = c; acks = a }
after_read k t s = s

-- `case 0x0e`, into a buffer that is not null
unfoldable pub call_q_read : Process → Block → Shared → Result
unfolding release_deferred
call_q_read k p s =
    let (t, c) = q_read (p 7) (p 2) (p 6) s.ctl in
    (reads t (p 0) (p 4), after_read k t (record s { ctl = c }))

-- `case 0x01`: an empty name is the caller's.
unfoldable pub call_t_ident : Process → ℕ → ℕ → Shared → Result
unfolding t_ident
call_t_ident k a b s = answered_id s (t_ident k.env k.caller a b s.ctl)

-- `case 0x09` and `case 0x2d`
unfoldable pub call_t_name : Process → Block → Shared → Result
unfolding t_name
call_t_name k p s =
    let (xs, c) = t_name k.env k.caller (p 2) s.ctl in
    if p 0 == 0
    then answer (pos 0) s
    else (answers (pos 0) ((p 0, xs) ∷ []) [], record s { ctl = c })

unfoldable pub call_p_name : Process → Block → Shared → Result
unfolding p_name
call_p_name k p s =
    if k.env.pname_reg && not (p 0 == 0)
    then (answers (pos 0) ((p 0, p_name k.caller (p 2) s.ctl) ∷ []) [], s)
    else answer (pos 0) s

-- `case 0x29`; `none` is a null name or no block.
unfoldable pub call_p_ident : Process → Option (List ℕ) → Shared → Result
unfolding p_ident
call_p_ident k name s = answered_id s (p_ident k.env k.ident k.caller name s.ctl)

-- `case 0x27`
unfoldable pub call_getenv : Process → Block → Shared → Result
unfolding env_get
call_getenv k p s =
    if p 0 == 0
    then answer (negsuc 1) s
    else (answers (pos 0) (store_at (p 2) (env_get (k.getenv (k.text (p 0))) (p 4))) [], s)
