-- ===== src/Rtos/Acks/Event.antt =====
-- inject_evt_connect_ack, post_evt_ans_error, inject_active_handwheel and inject_evt_error_reply: the
-- answers of the absent QEvtServer.
use tnc640unix.Base.{
  ℕ, ◌+◌, true, ◌&&◌, ◌||◌, not, Option, none, some, List, [], ◌∷◌, if◌then◌else◌, ◌==◌, leb,
  length, take, codes,
}
use tnc640unix.Gmsg.{gm_word, gm_absent, gm_scalar, gm_int, gm_list_empty}
use tnc640unix.Rtos.State.{Ctl, Caller, Env}
use tnc640unix.Rtos.Queues.{queue_at}
use tnc640unix.Rtos.Acks.{Acks, Knobs, holds, remember}
use tnc640unix.Rtos.Acks.Request.{type_of, leading, is_for, reply_slot}
use tnc640unix.Rtos.Acks.Config.{post}

-- EvtClientIsConnected
unfoldable pub evt_ack : List ℕ
unfolding gm_int
evt_ack = gm_int (gm_int (gm_int (gm_word [] 0x3200a0) 0) 0) 0

abbrev pub ack_viewer : Env → Caller → Option ℕ → Acks → Ctl → Acks × Ctl
ack_viewer e w none a c = (a, c)
ack_viewer e w (some s) a c =
    let id = (queue_at s c).id in
    if holds id a.evt_acked
    then (a, c)
    else (record a { evt_acked = remember 32 id a.evt_acked }, post e w id evt_ack c)

-- `inject_evt_connect_ack`
unfoldable pub inject_evt_connect_ack : Env → Knobs → Caller → ℕ → List ℕ → Acks → Ctl → Acks × Ctl
unfolding leading reply_slot remember
inject_evt_connect_ack e k w target msg a c =
    if k.inject_evt_ack
      && (leb 16 (length msg) && (is_for (codes "QEvtServer") target c && type_of msg == 0x320081))
    then (elim (leading msg) [ none ↦ (a, c) | some raw ↦ ack_viewer e w (reply_slot raw c) a c ])
    else (a, c)

-- The schema of CfgActiveHandwheel
abbrev pub handwheel_codes : List ℕ
handwheel_codes =
    0xe7 ∷ 0xe7 ∷ 0x63 ∷ 0x63 ∷ 0x66008b ∷ 0x66008b ∷ 0x1ad ∷ 0xe7 ∷ 0x1ad ∷ 0x66008b ∷ 0x1ad ∷ 0x84
    ∷ 0x63 ∷ 0x63 ∷ 0x63 ∷ 0x63 ∷ 0x18c ∷ 0xa5 ∷ 0x18c ∷ 0xa5 ∷ []

-- A list or an array is present and empty, any other attribute absent.
unfoldable pub put_defaults : List ℕ → List ℕ → List ℕ
unfolding gm_list_empty gm_absent
put_defaults b [] = b
put_defaults b (code ∷ codes) =
    put_defaults
      (if code == 0x66008b || (code == 0x18c || code == 0xa5)
        then gm_list_empty b code
        else gm_absent b code)
      codes

-- The bytes of the file, or the message with all defaults
unfoldable pub handwheel_message : List ℕ → List ℕ
unfolding put_defaults
handwheel_message file =
    if length (take 1024 file) == 0
    then put_defaults (gm_word [] 0x660801) handwheel_codes
    else take 1024 file

-- `inject_active_handwheel`
unfoldable pub inject_active_handwheel : Env → Knobs → Caller → ℕ → Acks → Ctl → Acks × Ctl
unfolding handwheel_message
inject_active_handwheel e k w id a c =
    if not k.inject_active_hw || a.active_hw_done
    then (a, c)
    else (record a { active_hw_done = true }, post e w id (handwheel_message k.active_hw_file) c)

-- EvtAnsErrorRequest with the result 1
unfoldable pub error_answer : List ℕ
unfolding gm_scalar gm_list_empty
error_answer = gm_list_empty (gm_scalar (gm_word [] 0x320601) 0x3205eb 1) 0x18c

-- `post_evt_ans_error`
unfoldable pub post_evt_ans_error : Env → Knobs → Caller → ℕ → Acks → Ctl → Acks × Ctl
unfolding inject_active_handwheel
post_evt_ans_error e k w id a c =
    if leb 8 a.evterr_replied
    then (a, c)
    else inject_active_handwheel e k w id (record a { evterr_replied = a.evterr_replied + 1 })
        (post e w id error_answer c)

abbrev pub answer_poll : Env → Knobs → Caller → List ℕ → Acks → Ctl → Acks × Ctl
answer_poll e k w [] a c = (a, c)
answer_poll e k w (id ∷ ids) a c =
    if k.evterr_defer then (record a { deferred = id }, c) else post_evt_ans_error e k w id a c

-- `inject_evt_error_reply`
unfoldable pub inject_evt_error_reply : Env → Knobs → Caller → ℕ → List ℕ → Acks → Ctl → Acks × Ctl
unfolding post_evt_ans_error
inject_evt_error_reply e k w target msg a c =
    if k.inject_peer_ack
      && (leb 4 (length msg) && (is_for (codes "QEvtServer") target c && type_of msg == 0x3205c0))
    then answer_poll e k w a.evt_acked a c
    else (a, c)

-- The release of a deferred answer, when a read takes a message of the type 0x290081
unfoldable pub release_deferred : Env → Knobs → Caller → List ℕ → Acks → Ctl → Acks × Ctl
unfolding post_evt_ans_error
release_deferred e k w msg a c =
    if not (a.deferred == 0) && type_of msg == 0x290081
    then post_evt_ans_error e k w a.deferred (record a { deferred = 0 }) c
    else (a, c)
