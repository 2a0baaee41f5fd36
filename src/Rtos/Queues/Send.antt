-- ===== src/Rtos/Queues/Send.antt =====
-- Q_send: routing, the request family, the ring, the serial numbers of window-manager queues, and
-- the notification of the owner. A message is the list of its bytes and never null; the injection
-- knobs, all off by default, are left out.
use tnc640unix.Base.{
  ℕ, ◌+◌, ◌*◌, ◌/◌, ◌%◌, ◌^◌, Bool, true, false, ◌&&◌, ◌||◌, not, Option, none, some, List, [], ◌∷◌,
  ◌++◌, if◌then◌else◌, ◌==◌, leb, length, take, drop, bytes_eq, bit_and, get32, put32, codes, ℤ,
  pos, negsuc,
}
use tnc640unix.Rtos.Table.{find_slot}
use tnc640unix.Rtos.Names.{stored, starts}
use tnc640unix.Rtos.State.{Msg, Queue, Ctl, Caller, Env}
use tnc640unix.Rtos.Tasks.{task_slot, task_at, put_task, task_self}
use tnc640unix.Rtos.Events.{ev_send}
use tnc640unix.Rtos.Queues.{is_empty, q_slot, queue_at, put_queue, q_find_slot}
use tnc640unix.Rtos.Queues.Ring.{make_room, append}

-- QMSGCAP
abbrev pub qmsgcap : ℕ
qmsgcap = 20480

-- A reply of ConfigServer to the queue without a name, and the client it names: the leading string.
abbrev pub cfg_reply : Env → List ℕ → Bool
cfg_reply e msg =
    leb 12 (length msg)
    && (get32 msg 4 == 0xe7 && not (e.inject_ack && get32 msg 0 % 2 ^ 31 == 0x170100))
    && (leb 1 (get32 msg 8) && (leb (get32 msg 8) 64 && leb (12 + get32 msg 8) (length msg)))

-- A C string up to its NUL
abbrev pub c_string : List ℕ → List ℕ
c_string [] = []
c_string (x ∷ s) = if x == 0 then [] else x ∷ c_string s

abbrev pub no_dot : List ℕ → List ℕ
no_dot [] = []
no_dot (x ∷ s) = if x == b'.' then s else x ∷ s

abbrev pub reply_to : List ℕ → List ℕ
reply_to msg = no_dot (c_string (take (get32 msg 8) (drop 12 msg)))

-- The slot `rs` if it passes the test, else `s`.
abbrev pub redirect : ℕ → Ctl → (Queue → Bool) → Option ℕ → ℕ
redirect s c ok none = s
redirect s c ok (some rs) =
    if not (rs == s) && (not (is_empty (queue_at rs c).name) && ok (queue_at rs c)) then rs else s

-- CFG_REPLY_ROUTE
unfoldable pub cfg_route : Env → ℕ → List ℕ → Ctl → ℕ
cfg_route e s msg c =
    if e.cfg_reply_route && (is_empty (queue_at s c).name && cfg_reply e msg)
    then redirect s c (λ q. true) (q_find_slot (reply_to msg) c)
    else s

abbrev pub waitable : Ctl → Option ℕ → Bool
waitable c none = false
waitable c (some s) = not ((queue_at s c).notify_bits == 0)

-- The used "Client" queue with the notify bit of the softkey interface
abbrev pub softkey_client : Ctl → Option ℕ
softkey_client c =
    find_slot
      (λ q.
        q.used
        && (not (q.id == 0)
            && (starts (codes "Client") q.name && not (bit_and q.notify_bits 0x02000000 == 0))))
      c.queues

abbrev pub or_else : Option ℕ → Option ℕ → Option ℕ
or_else none o = o
or_else (some s) o = some s

-- The "Client<X>" queue of the task that reads "Rts<X>"
unfoldable pub sk_client : Env → List ℕ → Ctl → Option ℕ
sk_client e name c =
    let rs = q_find_slot (stored (codes "Client" ++ drop 3 name)) c in
    if e.sk_reply_force && not (waitable c rs) then or_else (softkey_client c) rs else rs

-- SK_REPLY_ROUTE
unfoldable pub sk_route : Env → ℕ → List ℕ → Ctl → ℕ
unfolding sk_client
sk_route e s msg c =
    if e.sk_reply_route
      && (leb 4 (length msg) && starts (codes "Rts") (queue_at s c).name)
      && get32 msg 0 / 2 ^ 16 == 0x28a
    then redirect s c (λ q. not (q.notify_bits == 0)) (sk_client e (queue_at s c).name c)
    else s

-- The slot that a message for slot `s` goes to
unfoldable pub route : Env → ℕ → List ℕ → Ctl → ℕ
unfolding cfg_route sk_route
route e s msg c = sk_route e (cfg_route e s msg c) msg c

-- The queues that take requests
abbrev pub takes_requests : List ℕ → Bool
takes_requests name =
    bytes_eq name (codes "CfgServerQueue")
    || (bytes_eq name (codes "Q_SkMgr") || bytes_eq name (codes "Q_SkMgrCtrl"))

abbrev pub set_family : ℕ → Ctl → Option ℕ → Ctl
set_family f c none = c
set_family f c (some s) = put_task s (record (task_at s c) { last_req_family = f }) c

-- The sender's request family, recorded on a send to a server queue
unfoldable pub note_family : ℕ → List ℕ → ℕ → Ctl → Ctl
note_family sender msg s c =
    if leb 4 (length msg) && takes_requests (queue_at s c).name
    then set_family (get32 msg 0 / 2 ^ 16) c (task_slot sender c)
    else c

-- `(mode&0xffff)|((size&0xffff)<<16)`
abbrev pub mode_size : ℕ → ℕ → ℕ
mode_size mode size = mode % 2 ^ 16 + size % 2 ^ 16 * 2 ^ 16

abbrev pub packet : ℕ → ℕ → ℕ → List ℕ → Msg
packet id sender mode body = record {
  body = body;
  hdr0 = id;
  hdr1 = sender;
  hdr2 = mode_size mode (length body);
}

abbrev pub is_wmq : List ℕ → Bool
is_wmq name = starts (codes "WMQ") name

-- WM_SERIAL_FIX: the serial that an event goes out under, and the queue's account of it
unfoldable pub renumber : Env → List ℕ → Queue → List ℕ × Queue
renumber e body q =
    if e.wm_serial_fix && (leb 8 (length body) && is_wmq q.name)
    then (if e.in_wm_tick
        then (let ns = (q.wm_last_serial + 1) % 2 ^ 32 in
            (
              put32 body 4 ns,
              record q { wm_last_serial = ns; wm_tick_offset = (q.wm_tick_offset + 1) % 2 ^ 32 },
            ))
        else (let ns = (get32 body 4 + q.wm_tick_offset) % 2 ^ 32 in
            (
              if q.wm_tick_offset == 0 then body else put32 body 4 ns,
              record q { wm_last_serial = ns },
            )))
    else (body, q)

-- What `q_send` does to the queue: room, the message, its serial.
unfoldable pub deliver : Env → ℕ → ℕ → List ℕ → Queue → Queue
unfolding renumber
deliver e sender mode body q =
    let (out, r) = renumber e body (make_room q) in
    append (record (packet q.id sender mode body) { body = out }) r

-- `if(nbits&&owner) ev_send(owner,nbits);`
unfoldable pub notify : Queue → Ctl → Ctl
notify q c =
    if not (q.notify_bits == 0) && not (q.owner == 0)
    then (let (answer, d) = ev_send q.owner q.notify_bits c in d)
    else c

-- `q_send` to the queue of a slot, behind the routing.
unfoldable pub send_at : Env → Caller → ℕ → List ℕ → ℕ → Ctl → Ctl
unfolding note_family deliver notify
send_at e w s msg mode c =
    let body = take qmsgcap msg in
    let (sender, d) = task_self e w c in
    let f = note_family sender body s d in
    let q = deliver e sender mode body (queue_at s f) in notify q (put_queue s q f)

-- `q_send`; -9 for an unknown queue.
unfoldable pub q_send : Env → Caller → ℕ → List ℕ → ℕ → Ctl → ℤ × Ctl
unfolding route send_at
q_send e w id msg mode c = elim (q_slot id c) [
  | none ↦ (negsuc 8, c)
  | some s ↦ (pos 0, send_at e w (route e s msg c) msg mode c)
]
