-- ===== src/Rtos/Acks/Config.antt =====
-- inject_connect_ack and inject_forget_ack: the answer to CfgConnectClient, once for each reply queue
-- until CfgDisconnectClient.
use tnc640unix.Base.{ℕ, ◌&&◌, Option, none, some, List, [], if◌then◌else◌, ◌==◌, leb, length, codes}
use tnc640unix.Gmsg.{gm_word, gm_str, gm_absent, gm_scalar}
use tnc640unix.Rtos.State.{Ctl, Caller, Env}
use tnc640unix.Rtos.Queues.{queue_at, q_find_slot}
use tnc640unix.Rtos.Queues.Send.{c_string, q_send}
use tnc640unix.Rtos.Acks.{Acks, holds, remember, forget}
use tnc640unix.Rtos.Acks.Request.{type_of, leading, is_for, best_match}

abbrev pub by_match : Ctl → Option ℕ → Option (ℕ × List ℕ)
by_match c none = none
by_match c (some s) = some (s, (queue_at s c).name)

abbrev pub by_name : List ℕ → Ctl → Option ℕ → Option (ℕ × List ℕ)
by_name raw c (some s) = some (s, raw)
by_name raw c none = by_match c (best_match (c_string raw) c)

-- The slot to reply to and the client id of the answer: the leading string itself where a queue has
-- that name, else the name of the queue that it embeds
unfoldable pub client : List ℕ → Ctl → Option (ℕ × List ℕ)
client raw c = by_name raw c (q_find_slot (c_string raw) c)

-- CfgClientIsConnected
unfoldable pub connect_ack : List ℕ → List ℕ
unfolding gm_str gm_absent gm_scalar
connect_ack cid = gm_scalar (gm_absent (gm_str (gm_word [] 0x170100) cid) 0x63) 0x1700eb 0

-- The send of an answer to a slot's queue
abbrev pub post : Env → Caller → ℕ → List ℕ → Ctl → Ctl
post e w id msg c = let (answer, d) = q_send e w id msg 0 c in d

abbrev pub ack_client : Env → Caller → Option (ℕ × List ℕ) → Acks → Ctl → Acks × Ctl
ack_client e w none a c = (a, c)
ack_client e w (some (s, cid)) a c =
    let id = (queue_at s c).id in
    if holds id a.acked
    then (a, c)
    else (record a { acked = remember 32 id a.acked }, post e w id (connect_ack cid) c)

abbrev pub ack_leading : Env → Caller → Option (List ℕ) → Acks → Ctl → Acks × Ctl
ack_leading e w none a c = (a, c)
ack_leading e w (some raw) a c = ack_client e w (client raw c) a c

-- `inject_connect_ack`
unfoldable pub inject_connect_ack : Env → Caller → ℕ → List ℕ → Acks → Ctl → Acks × Ctl
unfolding client leading remember connect_ack
inject_connect_ack e w target msg a c =
    if e.inject_ack
      && (leb 16 (length msg)
          && (is_for (codes "CfgServerQueue") target c && type_of msg == 0x1700c0))
    then ack_leading e w (leading msg) a c
    else (a, c)

abbrev pub forget_client : Option ℕ → Acks → Ctl → Acks
forget_client none a c = a
forget_client (some s) a c = record a { acked = forget (queue_at s c).id a.acked }

abbrev pub forget_leading : Option (List ℕ) → Acks → Ctl → Acks
forget_leading none a c = a
forget_leading (some raw) a c = forget_client (q_find_slot (c_string raw) c) a c

-- `inject_forget_ack`
unfoldable pub inject_forget_ack : Env → ℕ → List ℕ → Acks → Ctl → Acks
unfolding leading forget
inject_forget_ack e target msg a c =
    if e.inject_ack
      && (leb 12 (length msg)
          && (is_for (codes "CfgServerQueue") target c && type_of msg == 0x170120))
    then forget_leading (leading msg) a c
    else a
