-- ===== src/Rtos/Shape/Calls.antt =====
-- Each handler of the switch keeps the shape of the segment.
use tnc640unix.Base.{ℕ, ◌==◌, Bool, false, Option, none, some, List, [], if◌then◌else◌}
use tnc640unix.Rtos.State.{Ctl, Env, Caller}
use tnc640unix.Rtos.Tasks.{task_self, task_slot}
use tnc640unix.Rtos.Queues.{q_create}
use tnc640unix.Rtos.Queues.Send.{q_send}
use tnc640unix.Rtos.Queues.Read.{message, fails, sleeps, q_read, Turn}
use tnc640unix.Rtos.Acks.Config.{inject_connect_ack, inject_forget_ack}
use tnc640unix.Rtos.Acks.Event.{inject_evt_connect_ack, inject_evt_error_reply}
use tnc640unix.Rtos.Acks.Peer.{inject_peer_connect_ack}
use tnc640unix.Rtos.Calls.{IdentKnobs, t_ident, t_name, p_ident, tm_event}
use tnc640unix.Rtos.Dispatch.Outcome.{Process, Shared, Block, Result}
use tnc640unix.Rtos.Dispatch.Handlers
use tnc640unix.Rtos.Dispatch.Switch.{wkafter_case, m_ident_case}
use tnc640unix.Rtos.Shape.{Sizes, Shaped}
use tnc640unix.Rtos.Shape.Kernel
use tnc640unix.Rtos.Shape.Semaphores
use tnc640unix.Rtos.Shape.Queues
use tnc640unix.Rtos.Shape.Messages
use tnc640unix.Rtos.Shape.Acks

-- The shape of the segment of a state or a result
abbrev pub Keeps : Sizes → Shared → Type 0
Keeps z s = Shaped z s.ctl

abbrev pub KeepsAfter : Sizes → Result → Type 0
KeepsAfter z r = Shaped z r.1.ctl

pub branch-Shaped :
    (z : Sizes) (t : Bool) (x y : Result)
    → KeepsAfter z x
    → KeepsAfter z y
    → KeepsAfter z (if t then x else y)
branch-Shaped z t x y hx hy = Kernel.choose-keeps (KeepsAfter z) t x y hx hy

pub ruleset branches = (branch-Shaped)

module _ (z : Sizes) where
  pub t_ident-Shaped :
      (e : Env) (w : Caller) (a b : ℕ) (c : Ctl) → Shaped z c → Shaped z (t_ident e w a b c).1
  unfolding t_ident
  t_ident-Shaped e w a b c h =
      let own = Kernel.task_self-Shaped z e w c h in search (Kernel.shapes, own, h)

  pub t_name-Shaped :
      (e : Env) (w : Caller) (tid : ℕ) (c : Ctl) → Shaped z c → Shaped z (t_name e w tid c).1
  unfolding t_name
  t_name-Shaped e w tid c h =
      let own = Kernel.task_self-Shaped z e w c h in search (Kernel.shapes, own, h)

  pub p_ident-Shaped :
      (e : Env) (k : IdentKnobs) (w : Caller) (name : Option (List ℕ)) (c : Ctl)
      → Shaped z c
      → Shaped z (p_ident e k w name c).1
  unfolding p_ident
  p_ident-Shaped e k w none c h =
      let own = Kernel.task_self-Shaped z e w c h in search (Kernel.shapes, own, h)
  p_ident-Shaped e k w (some name) c h =
      let own = Kernel.task_self-Shaped z e w c h in search (Kernel.shapes, own, h)

  pub tm_event-Shaped :
      (fire : Bool) (e : Env) (w : Caller) (bits : ℕ) (c : Ctl)
      → Shaped z c
      → Shaped z (tm_event fire e w bits c).1
  unfolding tm_event
  tm_event-Shaped fire e w bits c h =
      let own = task_self e w c in
      let sent = Kernel.ev_send-Shaped z own.0 bits own.1 (Kernel.task_self-Shaped z e w c h) in
      search (Kernel.shapes, sent, h)

  pub injections-Shaped :
      (k : Process) (target : ℕ) (msg : List ℕ) (s : Shared)
      → Keeps z s
      → Keeps z (Handlers.injections k target msg s)
  unfolding Handlers.injections
  injections-Shaped k target msg s h =
      let x1 = inject_connect_ack k.env k.caller target msg s.acks s.ctl in
      let h1 = Acks.inject_connect_ack-Shaped z k.env k.caller target msg s.acks s.ctl h in
      let a2 = inject_forget_ack k.env target msg x1.0 x1.1 in
      let x3 = inject_evt_connect_ack k.env k.knobs k.caller target msg a2 x1.1 in
      let h3 = Acks.inject_evt_connect_ack-Shaped z k.env k.caller k.knobs target msg a2 x1.1 h1 in
      let x4 = inject_peer_connect_ack k.env k.knobs k.caller msg x3.0 x3.1 in
      let h4 = Acks.inject_peer_connect_ack-Shaped z k.env k.caller k.knobs msg x3.0 x3.1 h3 in
      let x5 = inject_evt_error_reply k.env k.knobs k.caller target msg x4.0 x4.1 in
      let h5 =
        Acks.inject_evt_error_reply-Shaped z k.env k.caller k.knobs target msg x4.0 x4.1 h4 in
      Acks.inject_broadcast_register_reply-Shaped z k.env k.caller k.knobs msg x5.0 x5.1 h5

  pub after_read-Shaped :
      (k : Process) (t : Turn) (s : Shared) → Keeps z s → Keeps z (Handlers.after_read k t s)
  after_read-Shaped k (message m) s h =
      Acks.release_deferred-Shaped z k.env k.caller k.knobs m.body s.acks s.ctl h
  after_read-Shaped k (fails e) s h = h
  after_read-Shaped k (sleeps n) s h = h

  pub call_ev_receive-Shaped :
      (k : Process) (p : Block) (s : Shared)
      → Keeps z s
      → KeepsAfter z (Handlers.call_ev_receive k p s)
  unfolding Handlers.call_ev_receive
  call_ev_receive-Shaped k p s h =
      let own = task_self k.env k.caller s.ctl in
      receive (record s { ctl = own.1 }) (task_slot own.0 own.1)
        (Kernel.task_self-Shaped z k.env k.caller s.ctl h)
    where
      receive : (t : Shared) (o : Option ℕ) → Keeps z t → KeepsAfter z (Handlers.receive_at p t o)
      receive t none ht = ht
      receive t (some i) ht =
          Kernel.ev_turn-Shaped z i (p 0) (p 1) (p 2) false _
            (Kernel.ev_enter-Shaped z i (p 0) t.ctl ht)

  pub call_as_mask-Shaped :
      (k : Process) (p : Block) (s : Shared)
      → Keeps z s
      → KeepsAfter z (Handlers.call_as_mask k p s)
  unfolding Handlers.call_as_mask
  call_as_mask-Shaped k p s h =
      let own = task_self k.env k.caller s.ctl in
      mask (record s { ctl = own.1 }) (task_slot own.0 own.1)
        (Kernel.task_self-Shaped z k.env k.caller s.ctl h)
    where
      mask : (t : Shared) (o : Option ℕ) → Keeps z t → KeepsAfter z (Handlers.mask_at k p t o)
      mask t none ht = ht
      mask t (some i) ht =
          Kernel.as_mask_op-Shaped z k.env i (if p 0 == 0 then 0 else k.word (p 0)) (p 2) t.ctl ht

  pub call_as_read-Shaped :
      (k : Process) (p : Block) (s : Shared)
      → Keeps z s
      → KeepsAfter z (Handlers.call_as_read k p s)
  unfolding Handlers.call_as_read
  call_as_read-Shaped k p s h =
      let own = task_self k.env k.caller s.ctl in
      read (record s { ctl = own.1 }) (task_slot own.0 own.1)
        (Kernel.task_self-Shaped z k.env k.caller s.ctl h)
    where
      read :
          (t : Shared) (o : Option ℕ) → Keeps z t → KeepsAfter z (Handlers.read_signals_at k p t o)
      read t none ht = ht
      read t (some i) ht = Kernel.as_read-Shaped z i (if p 0 == 0 then 0 else k.word (p 0)) t.ctl ht

  pub call_q_create-Shaped :
      (k : Process) (p : Block) (s : Shared)
      → Keeps z s
      → KeepsAfter z (Handlers.call_q_create k p s)
  unfolding Handlers.call_q_create
  call_q_create-Shaped k p s h =
      Kernel.choose_state-Shaped z (p 0 == 0) (q_create k.env k.caller (some []) 0 0 s.ctl)
        (q_create k.env k.caller (some (k.text (p 0))) (p 2) (p 3) s.ctl)
        (Queues.q_create-Shaped z k.env k.caller (some []) 0 0 s.ctl h)
        (Queues.q_create-Shaped z k.env k.caller (some (k.text (p 0))) (p 2) (p 3) s.ctl h)

  pub call_q_send-Shaped :
      (k : Process) (p : Block) (s : Shared) → Keeps z s → KeepsAfter z (Handlers.call_q_send k p s)
  unfolding Handlers.call_q_send
  call_q_send-Shaped k p s h =
      let msg = k.bytes (p 0) (p 2) in
      let sent = q_send k.env k.caller (p 4) msg (p 6) s.ctl in
      injections-Shaped k (p 4) msg (record s { ctl = sent.1 })
        (Messages.q_send-Shaped z k.env k.caller (p 4) msg (p 6) s.ctl h)

  pub call_q_read-Shaped :
      (k : Process) (p : Block) (s : Shared) → Keeps z s → KeepsAfter z (Handlers.call_q_read k p s)
  unfolding Handlers.call_q_read
  call_q_read-Shaped k p s h =
      let read = q_read (p 7) (p 2) (p 6) s.ctl in
      after_read-Shaped k read.0 (record s { ctl = read.1 })
        (Messages.q_read-Shaped z (p 7) (p 2) (p 6) s.ctl h)

  pub call_sm_ident-Shaped :
      (k : Process) (p : Block) (s : Shared)
      → Keeps z s
      → KeepsAfter z (Handlers.call_sm_ident k p s)
  unfolding Handlers.call_sm_ident
  call_sm_ident-Shaped k p s h =
      let found = Semaphores.sem_ident-Shaped z k.env (k.text (p 0)) s.ctl h in
      search (branches, found, h)

  pub call_q_ident-Shaped :
      (k : Process) (p : Block) (s : Shared)
      → Keeps z s
      → KeepsAfter z (Handlers.call_q_ident k p s)
  unfolding Handlers.call_q_ident
  call_q_ident-Shaped k p s h =
      let found = Queues.q_ident-Shaped z k.env k.caller (k.text (p 0)) s.ctl h in
      search (branches, found, h)

  pub call_t_create-Shaped :
      (k : Process) (p : Block) (s : Shared)
      → Keeps z s
      → KeepsAfter z (Handlers.call_t_create k p s)
  unfolding Handlers.call_t_create
  call_t_create-Shaped k p s h = Kernel.t_create-Shaped z k.env k.caller _ s.ctl h

  pub call_t_name-Shaped :
      (k : Process) (p : Block) (s : Shared) → Keeps z s → KeepsAfter z (Handlers.call_t_name k p s)
  unfolding Handlers.call_t_name
  call_t_name-Shaped k p s h =
      let named = t_name-Shaped k.env k.caller (p 2) s.ctl h in search (branches, named, h)

  pub call_getenv-Shaped :
      (k : Process) (p : Block) (s : Shared) → Keeps z s → KeepsAfter z (Handlers.call_getenv k p s)
  unfolding Handlers.call_getenv
  call_getenv-Shaped k p s h = search (branches, h)

  pub call_p_name-Shaped :
      (k : Process) (p : Block) (s : Shared) → Keeps z s → KeepsAfter z (Handlers.call_p_name k p s)
  unfolding Handlers.call_p_name
  call_p_name-Shaped k p s h = search (branches, h)

  pub wkafter_case-Shaped :
      (k : Process) (p : Block) (s : Shared) → Keeps z s → KeepsAfter z (wkafter_case k p s)
  unfolding wkafter_case
  wkafter_case-Shaped k p s h = search (branches, h)

  pub m_ident_case-Shaped :
      (k : Process) (p : Block) (s : Shared) → Keeps z s → KeepsAfter z (m_ident_case k p s)
  unfolding m_ident_case
  m_ident_case-Shaped k p s h =
      let found = Semaphores.reg_ident-Shaped z (k.text (p 0)) s.ctl h in
      search (branches, found, h)
