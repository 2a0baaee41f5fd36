-- ===== src/Rtos/Acks/Peer.antt =====
-- inject_peer_connect_ack and inject_broadcast_register_reply: the answers of the absent peers.
use tnc640unix.Base.{
  ℕ, ◌+◌, ◌*◌, ◌%◌, ◌^◌, Bool, ◌&&◌, not, Option, none, some, List, [], ◌∷◌, if◌then◌else◌, ◌==◌,
  leb, length, codes,
}
use tnc640unix.Gmsg.{gm_word, gm_absent, gm_scalar}
use tnc640unix.Rtos.State.{Ctl, Caller, Env}
use tnc640unix.Rtos.Queues.{queue_at, q_find_slot}
use tnc640unix.Rtos.Queues.Send.{c_string, or_else}
use tnc640unix.Rtos.Acks.{Acks, Knobs, holds, remember}
use tnc640unix.Rtos.Acks.Request.{type_of, leading, watched_match, reply_slot}
use tnc640unix.Rtos.Acks.Config.{post}

-- A field of a reply: its code, and its value where it is present
abbrev pub Field : Type 0
Field = ℕ × Option ℕ

-- A row of the table `P`
pub record PeerReply : Type 0 where
  pub request : ℕ
  pub reply : ℕ
  pub peer : ℕ
  pub fields : List Field

abbrev pub peer_replies : List PeerReply
peer_replies =
    record {
      request = 0x01a90040;
      reply = 0x41a90080;
      peer = b'I';
      fields = (0x01a9006b, none) ∷ (0x63, none) ∷ (0xe7, none) ∷ (0x63, none) ∷ [];
    }
    ∷ record {
      request = 0x012f0160;
      reply = 0x012f0180;
      peer = b'P';
      fields = (0x012f0024, none) ∷ (0x012f006b, none) ∷ (0x84, none) ∷ [];
    }
    ∷ record {
      request = 0x03340040;
      reply = 0x41cc05e1;
      peer = b'C';
      fields =
          (0x01c20503, none)
          ∷ (0x01c20503, none)
          ∷ (0x01cc058b, some 1)
          ∷ (0x01cc058b, none)
          ∷ (0x01ad, some 1)
          ∷ (0xc6, none)
          ∷ [];
    }
    ∷ []

abbrev pub row_of : ℕ → List PeerReply → Option PeerReply
row_of hdr [] = none
row_of hdr (r ∷ rs) = if r.request == hdr then some r else row_of hdr rs

abbrev pub all_absent : List Field → List Field
all_absent [] = []
all_absent ((code, v) ∷ fs) = (code, none) ∷ all_absent fs

-- CM_GRANT off: the reply of the peer C with no field present
abbrev pub granted : Bool → PeerReply → PeerReply
granted grant r =
    if r.peer == b'C' && not grant then record r { fields = all_absent r.fields } else r

unfoldable pub put_fields : List ℕ → List Field → List ℕ
unfolding gm_scalar gm_absent
put_fields b [] = b
put_fields b ((code, none) ∷ fs) = put_fields (gm_absent b code) fs
put_fields b ((code, some v) ∷ fs) = put_fields (gm_scalar b code v) fs

unfoldable pub peer_ack : PeerReply → List ℕ
unfolding put_fields
peer_ack r = put_fields (gm_word [] r.reply) r.fields

-- `(rqid<<8)|(uint8_t)peer`
abbrev pub peer_key : ℕ → PeerReply → ℕ
peer_key id r = id * 256 % 2 ^ 32 + r.peer

abbrev pub ack_peer : Env → Caller → PeerReply → Option ℕ → Acks → Ctl → Acks × Ctl
ack_peer e w r none a c = (a, c)
ack_peer e w r (some s) a c =
    let id = (queue_at s c).id in
    if holds (peer_key id r) a.peer_acked then (a, c) else (
      record a { peer_acked = remember 64 (peer_key id r) a.peer_acked },
      post e w id (peer_ack r) c,
    )

-- `inject_peer_connect_ack`
unfoldable pub inject_peer_connect_ack : Env → Knobs → Caller → List ℕ → Acks → Ctl → Acks × Ctl
unfolding leading reply_slot peer_ack remember
inject_peer_connect_ack e k w msg a c =
    if k.inject_peer_ack && leb 16 (length msg)
    then (elim (row_of (type_of msg) peer_replies) [
      | none ↦ (a, c)
      | some r ↦ elim (leading msg) [
        | none ↦ (a, c)
        | some raw ↦ ack_peer e w (granted k.cm_grant r) (reply_slot raw c) a c
      ]
    ])
    else (a, c)

-- GmBroadcastRegisterResp
unfoldable pub broadcast_ack : List ℕ
unfolding gm_absent
broadcast_ack = gm_absent (gm_absent (gm_absent (gm_word [] 0x43340280) 0x334020b) 0x63) 0x63

-- The queue that the leading string names or embeds and that is watched, if there is such a string
abbrev pub broadcast_target : Option (List ℕ) → Ctl → Option ℕ
broadcast_target none c = none
broadcast_target (some raw) c =
    or_else (q_find_slot (c_string raw) c) (watched_match (c_string raw) c)

abbrev pub ack_broadcast : Env → Caller → Option ℕ → Acks → Ctl → Acks × Ctl
ack_broadcast e w none a c = (a, c)
ack_broadcast e w (some s) a c =
    (record a { bcast_replied = a.bcast_replied + 1 }, post e w (queue_at s c).id broadcast_ack c)

-- `inject_broadcast_register_reply`
unfoldable pub inject_broadcast_register_reply :
    Env → Knobs → Caller → List ℕ → Acks → Ctl → Acks × Ctl
unfolding leading watched_match
inject_broadcast_register_reply e k w msg a c =
    if k.inject_peer_ack
      && (leb 8 (length msg) && (type_of msg == 0x03340261 && not (leb 8 a.bcast_replied)))
    then ack_broadcast e w
        (or_else (broadcast_target (leading msg) c) (q_find_slot (codes "QueueHrMmi") c)) a c
    else (a, c)
