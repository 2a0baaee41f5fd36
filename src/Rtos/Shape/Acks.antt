-- ===== src/Rtos/Shape/Acks.antt =====
-- The posts of synthetic acknowledgements keep the shape of the segment.
use tnc640unix.Base.{ℕ, codes, Option, none, some, List, [], ◌∷◌}
use tnc640unix.Rtos.State.{Ctl, Env, Caller}
use tnc640unix.Rtos.Queues.{queue_at, q_find_slot}
use tnc640unix.Rtos.Queues.Send.{or_else}
use tnc640unix.Rtos.Acks.{Acks, Knobs}
use tnc640unix.Rtos.Acks.Request.{type_of, leading, reply_slot}
use tnc640unix.Rtos.Acks.Config.{
  post, ack_client, ack_leading, client, connect_ack, inject_connect_ack,
}
use tnc640unix.Rtos.Acks.Event.{
  evt_ack, ack_viewer, inject_evt_connect_ack, handwheel_message, inject_active_handwheel,
  error_answer, post_evt_ans_error, answer_poll, inject_evt_error_reply, release_deferred,
}
use tnc640unix.Rtos.Acks.Peer.{
  PeerReply, peer_ack, peer_replies, row_of, granted, ack_peer, inject_peer_connect_ack,
  broadcast_target, ack_broadcast, broadcast_ack, inject_broadcast_register_reply,
}
use tnc640unix.Rtos.Shape.{Sizes, Shaped}
use tnc640unix.Rtos.Shape.Kernel.{shapes, lookup-Shaped}
use tnc640unix.Rtos.Shape.Messages.{q_send-Shaped}

module _ (z : Sizes) (e : Env) (w : Caller) where
  post-Shaped : (id : ℕ) (msg : List ℕ) (c : Ctl) → Shaped z c → Shaped z (post e w id msg c)
  post-Shaped id msg c h = q_send-Shaped z e w id msg 0 c h

  ack_client-Shaped :
      (o : Option (ℕ × List ℕ)) (a : Acks) (c : Ctl)
      → Shaped z c
      → Shaped z (ack_client e w o a c).1
  ack_client-Shaped none a c h = h
  ack_client-Shaped (some (s, cid)) a c h =
      let posted = post-Shaped (queue_at s c).id (connect_ack cid) c h in search (shapes, posted, h)

  ack_leading-Shaped :
      (o : Option (List ℕ)) (a : Acks) (c : Ctl) → Shaped z c → Shaped z (ack_leading e w o a c).1
  ack_leading-Shaped none a c h = h
  ack_leading-Shaped (some raw) a c h = ack_client-Shaped (client raw c) a c h

  pub inject_connect_ack-Shaped :
      (target : ℕ) (msg : List ℕ) (a : Acks) (c : Ctl)
      → Shaped z c
      → Shaped z (inject_connect_ack e w target msg a c).1
  unfolding inject_connect_ack
  inject_connect_ack-Shaped target msg a c h =
      let led = ack_leading-Shaped (leading msg) a c h in search (shapes, led, h)

  ack_viewer-Shaped :
      (o : Option ℕ) (a : Acks) (c : Ctl) → Shaped z c → Shaped z (ack_viewer e w o a c).1
  ack_viewer-Shaped none a c h = h
  ack_viewer-Shaped (some s) a c h =
      let posted = post-Shaped (queue_at s c).id evt_ack c h in search (shapes, posted, h)

  pub inject_evt_connect_ack-Shaped :
      (k : Knobs) (target : ℕ) (msg : List ℕ) (a : Acks) (c : Ctl)
      → Shaped z c
      → Shaped z (inject_evt_connect_ack e k w target msg a c).1
  unfolding inject_evt_connect_ack
  inject_evt_connect_ack-Shaped k target msg a c h =
      let led =
        lookup-Shaped z (leading msg) (a, c) (λ raw. ack_viewer e w (reply_slot raw c) a c) h
          (λ raw. ack_viewer-Shaped (reply_slot raw c) a c h) in
      search (shapes, led, h)

  post_evt_ans_error-Shaped :
      (k : Knobs) (id : ℕ) (a : Acks) (c : Ctl)
      → Shaped z c
      → Shaped z (post_evt_ans_error e k w id a c).1
  unfolding post_evt_ans_error inject_active_handwheel
  post_evt_ans_error-Shaped k id a c h =
      let answered = post-Shaped id error_answer c h in
      let posted = post-Shaped id (handwheel_message k.active_hw_file) _ answered in
      search (shapes, answered, posted, h)

  answer_poll-Shaped :
      (k : Knobs) (ids : List ℕ) (a : Acks) (c : Ctl)
      → Shaped z c
      → Shaped z (answer_poll e k w ids a c).1
  answer_poll-Shaped k [] a c h = h
  answer_poll-Shaped k (id ∷ ids) a c h =
      let posted = post_evt_ans_error-Shaped k id a c h in search (shapes, posted, h)

  pub inject_evt_error_reply-Shaped :
      (k : Knobs) (target : ℕ) (msg : List ℕ) (a : Acks) (c : Ctl)
      → Shaped z c
      → Shaped z (inject_evt_error_reply e k w target msg a c).1
  unfolding inject_evt_error_reply
  inject_evt_error_reply-Shaped k target msg a c h =
      let posted = answer_poll-Shaped k a.evt_acked a c h in search (shapes, posted, h)

  pub release_deferred-Shaped :
      (k : Knobs) (msg : List ℕ) (a : Acks) (c : Ctl)
      → Shaped z c
      → Shaped z (release_deferred e k w msg a c).1
  unfolding release_deferred
  release_deferred-Shaped k msg a c h =
      let posted = post_evt_ans_error-Shaped k a.deferred (record a { deferred = 0 }) c h in
      search (shapes, posted, h)

  ack_peer-Shaped :
      (r : PeerReply) (o : Option ℕ) (a : Acks) (c : Ctl)
      → Shaped z c
      → Shaped z (ack_peer e w r o a c).1
  ack_peer-Shaped r none a c h = h
  ack_peer-Shaped r (some s) a c h =
      let posted = post-Shaped (queue_at s c).id (peer_ack r) c h in search (shapes, posted, h)

  pub inject_peer_connect_ack-Shaped :
      (k : Knobs) (msg : List ℕ) (a : Acks) (c : Ctl)
      → Shaped z c
      → Shaped z (inject_peer_connect_ack e k w msg a c).1
  unfolding inject_peer_connect_ack
  inject_peer_connect_ack-Shaped k msg a c h =
      let on_row : PeerReply → Acks × Ctl = λ r. elim (leading msg) as (λ t. Acks × Ctl) [
        | none ↦ (a, c)
        | some raw ↦ ack_peer e w (granted k.cm_grant r) (reply_slot raw c) a c
      ] in
      let rows =
        lookup-Shaped z (row_of (type_of msg) peer_replies) (a, c) on_row h
          λ r.
            lookup-Shaped z (leading msg) (a, c) _ h
              (λ raw. ack_peer-Shaped (granted k.cm_grant r) (reply_slot raw c) a c h) in
      search (shapes, rows, h)

  ack_broadcast-Shaped :
      (o : Option ℕ) (a : Acks) (c : Ctl) → Shaped z c → Shaped z (ack_broadcast e w o a c).1
  ack_broadcast-Shaped none a c h = h
  ack_broadcast-Shaped (some s) a c h = post-Shaped (queue_at s c).id broadcast_ack c h

  pub inject_broadcast_register_reply-Shaped :
      (k : Knobs) (msg : List ℕ) (a : Acks) (c : Ctl)
      → Shaped z c
      → Shaped z (inject_broadcast_register_reply e k w msg a c).1
  unfolding inject_broadcast_register_reply
  inject_broadcast_register_reply-Shaped k msg a c h =
      let target =
        or_else (broadcast_target (leading msg) c) (q_find_slot (codes "QueueHrMmi") c) in
      let posted = ack_broadcast-Shaped target a c h in search (shapes, posted, h)
