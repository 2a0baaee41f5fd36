-- ===== src/Rtos/Acks/Bounds.antt =====
-- The synthetic answers fit the buffers that the code builds them in.
use tnc640unix.Base.{
  ℕ, ◌+◌, ◌*◌, ◌≤◌, ◌≡◌, inl, inr, refl, Bool, Option, none, some, List, [], ◌∷◌, ◌++◌, arith, ◌==◌,
  length, take, drop, length-append, length-take, get32, Bool-cases, bytes32,
}
use tnc640unix.Gmsg.{gm_word, gm_absent, gm_scalar}
use tnc640unix.Rtos.State.{Ctl}
use tnc640unix.Rtos.Queues.{queue_at, q_find_slot}
use tnc640unix.Rtos.Queues.Send.{c_string}
use tnc640unix.Rtos.Acks.Request.{leading}
use tnc640unix.Rtos.Acks.Config.{by_match, by_name, client, connect_ack}
use tnc640unix.Rtos.Acks.Event.{
  evt_ack, handwheel_message, error_answer, put_defaults, handwheel_codes,
}
use tnc640unix.Rtos.Acks.Peer.{
  PeerReply, Field, peer_replies, row_of, granted, all_absent, put_fields, peer_ack, broadcast_ack,
}

length-gm_word : (b : List ℕ) (v : ℕ) → length (gm_word b v) ≡ length b + 4
length-gm_word b v = omega (arith, length-append b (bytes32 v))

length-connect_ack : (cid : List ℕ) → length (connect_ack cid) ≡ length cid + 24
unfolding connect_ack
length-connect_ack cid = omega (
  arith,
  length-append cid (bytes32 2147483747 ++ bytes32 1507563 ++ bytes32 0),
  length-append (cid ++ bytes32 2147483747 ++ bytes32 1507563) (bytes32 0),
  length-append (cid ++ bytes32 2147483747) (bytes32 1507563),
  length-append cid (bytes32 2147483747),
)

length-leading : (msg raw : List ℕ) → leading msg ≡ some raw → length raw ≤ 64
unfolding leading
length-leading msg raw h = ground (arith, length-take (get32 msg 8) (drop 12 msg))

length-put_fields :
    (b : List ℕ) (fs : List Field) → length (put_fields b fs) ≤ length b + 8 * length fs
unfolding put_fields
length-put_fields b [] = omega arith
length-put_fields b ((code, none) ∷ fs) =
    omega (arith, length-put_fields (gm_absent b code) fs, length-gm_word b (2147483648 + code))
length-put_fields b ((code, some v) ∷ fs) = omega (
  arith,
  length-put_fields (gm_scalar b code v) fs,
  length-gm_word (gm_word b code) v,
  length-gm_word b code,
)

length-by_match :
    (cid : List ℕ) (c : Ctl) (s : ℕ) (o : Option ℕ)
    → by_match c o ≡ some (s, cid)
    → length (queue_at s c).name ≤ 31
    → length cid ≤ 64
length-by_match cid c s none h stored = cc
length-by_match cid c s (some t) h stored = ground arith

length-by_name :
    (raw cid : List ℕ) (c : Ctl) (s : ℕ) (o : Option ℕ)
    → by_name raw c o ≡ some (s, cid)
    → length raw ≤ 64
    → length (queue_at s c).name ≤ 31
    → length cid ≤ 64
length-by_name raw cid c s (some t) h short stored = ground arith
length-by_name raw cid c s none h short stored = length-by_match cid c s _ h stored

length-client :
    (raw cid : List ℕ) (c : Ctl) (s : ℕ)
    → client raw c ≡ some (s, cid)
    → length raw ≤ 64
    → length (queue_at s c).name ≤ 31
    → length cid ≤ 64
unfolding client
length-client raw cid c s h short stored =
    length-by_name raw cid c s (q_find_slot (c_string raw) c) h short stored

length-all_absent : (fs : List Field) → length (all_absent fs) ≡ length fs
length-all_absent [] = refl
length-all_absent ((code, v) ∷ fs) = omega (arith, length-all_absent fs)

length-granted : (g : Bool) (r : PeerReply) → length (granted g r).fields ≡ length r.fields
length-granted g r = ground (arith, length-all_absent r.fields)

length-row_of : (hdr : ℕ) (r : PeerReply) → row_of hdr peer_replies ≡ some r → length r.fields ≤ 6
length-row_of hdr r h = ground arith

length-peer_ack : (r : PeerReply) → length (peer_ack r) ≤ 4 + 8 * length r.fields
unfolding peer_ack
length-peer_ack r = omega (arith, length-put_fields (gm_word [] r.reply) r.fields)

length-defaults : length (put_defaults (gm_word [] 0x660801) handwheel_codes) ≤ 1024
unfolding put_defaults
length-defaults = omega arith

length-handwheel_message : (file : List ℕ) → length (handwheel_message file) ≤ 1024
unfolding handwheel_message
length-handwheel_message file = elim (Bool-cases (length (take 1024 file) == 0)) [
  | inl none_read ↦ rw none_read length-defaults
  | inr some_read ↦ rw some_read (omega (arith, length-take 1024 file))
]

-- Every synthetic answer fits its buffer: the connect answer to the client of a request with a
-- leading string, for a queue whose name its array holds, 160 bytes; a peer's reply, granted or
-- not, 64; the event answers 64 and 32; the broadcast answer 24; and the handwheel message 1024.
pub answers_fit :
    (msg raw cid file : List ℕ) (c : Ctl) (s hdr : ℕ) (r : PeerReply) (grant : Bool)
    → leading msg ≡ some raw
    → client raw c ≡ some (s, cid)
    → length (queue_at s c).name ≤ 31
    → row_of hdr peer_replies ≡ some r
    → (length (connect_ack cid) ≤ 160)
      × (length (peer_ack (granted grant r)) ≤ 64)
      × (length evt_ack ≤ 64)
      × (length error_answer ≤ 32)
      × (length broadcast_ack ≤ 24)
      × (length (handwheel_message file) ≤ 1024)
unfolding evt_ack error_answer broadcast_ack
answers_fit msg raw cid file c s hdr r grant l k name row = (
  omega
      (arith, length-connect_ack cid, length-client raw cid c s k (length-leading msg raw l) name),
  omega (arith, length-peer_ack (granted grant r), length-granted grant r, length-row_of hdr r row),
  omega arith,
  omega arith,
  omega arith,
  length-handwheel_message file,
)
