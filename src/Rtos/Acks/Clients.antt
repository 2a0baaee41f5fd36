-- ===== src/Rtos/Acks/Clients.antt =====
-- The connect and disconnect requests of clients over any run of the program.
use tnc640unix.Base.{
  ℕ, ◌<◌, ◌≡◌, inl, inr, refl, Bool, true, false, Option, none, some, List, if◌then◌else◌, ◌==◌,
  leb, length, Bool-cases, codes,
}
use tnc640unix.Rtos.State.{Ctl, Caller, Env}
use tnc640unix.Rtos.Queues.{queue_at, q_find_slot}
use tnc640unix.Rtos.Queues.Send.{c_string}
use tnc640unix.Rtos.Acks.{Acks, holds}
use tnc640unix.Rtos.Acks.Request.{type_of, leading, is_for}
use tnc640unix.Rtos.Acks.Config.{
  client, ack_client, ack_leading, inject_connect_ack, forget_client, forget_leading,
  inject_forget_ack,
}
use tnc640unix.Rtos.Acks.Dedup.{AckList, holds-remember, remember-AckList, forget-AckList}

-- A request that the code takes for a CfgConnectClient or a CfgDisconnectClient of a client whose
-- leading string is `raw`
pub record Asks (e : Env) (type size target : ℕ) (msg raw : List ℕ) (c : Ctl) : Type 0 where
  pub enabled : e.inject_ack ≡ true
  pub long : leb size (length msg) ≡ true
  pub to_server : is_for (codes "CfgServerQueue") target c ≡ true
  pub typed : (type_of msg == type) ≡ true
  pub named : leading msg ≡ some raw

-- A branch of a guarded call
pub guarded_by {ℓ} :
    {A : Type ℓ} (b : Bool) (x y : A) (P : A → Type 0) → P x → P y → P (if b then x else y)
guarded_by true x y P p q = p
guarded_by false x y P p q = q

pub client-found :
    (raw : List ℕ) (c : Ctl) (s : ℕ)
    → q_find_slot (c_string raw) c ≡ some s
    → client raw c ≡ some (s, raw)
unfolding client
client-found raw c s h = rw (h, client)

module _ (e : Env) (w : Caller) where
  ack_client-AckList :
      (o : Option (ℕ × List ℕ)) (a : Acks) (c : Ctl)
      → AckList a.acked
      → AckList (ack_client e w o a c).0.acked
  ack_client-AckList none a c l = l
  ack_client-AckList (some (s, cid)) a c l = elim (Bool-cases (holds (queue_at s c).id a.acked)) [
    | inl old ↦ rw old l
    | inr new ↦ rw new (remember-AckList _ a.acked new l)
  ]

  -- The reply queue of an answered request is recorded, if there is room.
  ack_client-holds :
      (s : ℕ) (cid : List ℕ) (a : Acks) (c : Ctl)
      → length a.acked < 32
      → holds (queue_at s c).id (ack_client e w (some (s, cid)) a c).0.acked ≡ true
  ack_client-holds s cid a c room = elim (Bool-cases (holds (queue_at s c).id a.acked)) [
    | inl old ↦ rw old old
    | inr new ↦ rw new (holds-remember _ a.acked room)
  ]

  forget_client-AckList :
      (o : Option ℕ) (a : Acks) (c : Ctl) → AckList a.acked → AckList (forget_client o a c).acked
  forget_client-AckList none a c l = l
  forget_client-AckList (some s) a c l = forget-AckList (queue_at s c).id a.acked l

  -- A call of one of the two functions, with any message, in any segment
  pub data Step : Acks → Acks → Type 0 where
    connect :
        (target : ℕ) (msg : List ℕ) (a : Acks) (c : Ctl)
        → Step a (inject_connect_ack e w target msg a c).0
    disconnect :
        (target : ℕ) (msg : List ℕ) (a : Acks) (c : Ctl)
        → Step a (inject_forget_ack e target msg a c)

  pub data Reach (a : Acks) : Acks → Type 0 where
    here : Reach a a
    next : {b d : Acks} → Reach a b → Step b d → Reach a d

  connect-AckList :
      (target : ℕ) (msg : List ℕ) (a : Acks) (c : Ctl)
      → AckList a.acked
      → AckList (inject_connect_ack e w target msg a c).0.acked
  unfolding inject_connect_ack client
  connect-AckList target msg a c l =
      guarded_by _ _ _ (λ (r : Acks × Ctl). AckList r.0.acked) (on_leading (leading msg)) l
    where
      on_leading : (o : Option (List ℕ)) → AckList (ack_leading e w o a c).0.acked
      on_leading none = l
      on_leading (some raw) = ack_client-AckList (client raw c) a c l

  disconnect-AckList :
      (target : ℕ) (msg : List ℕ) (a : Acks) (c : Ctl)
      → AckList a.acked
      → AckList (inject_forget_ack e target msg a c).acked
  unfolding inject_forget_ack
  disconnect-AckList target msg a c l =
      guarded_by _ _ _ (λ (r : Acks). AckList r.acked) (on_leading (leading msg)) l
    where
      on_leading : (o : Option (List ℕ)) → AckList (forget_leading o a c).acked
      on_leading none = l
      on_leading (some raw) = forget_client-AckList (q_find_slot (c_string raw) c) a c l

  -- However connects and disconnects of any clients follow one another, in whatever segments, no
  -- reply queue is recorded twice and the array of 32 entries does not overflow.
  pub Reach-AckList : {a b : Acks} → AckList a.acked → Reach a b → AckList b.acked
  Reach-AckList l here = l
  Reach-AckList l (next r (connect target msg b c)) =
      connect-AckList target msg b c (Reach-AckList l r)
  Reach-AckList l (next r (disconnect target msg b c)) =
      disconnect-AckList target msg b c (Reach-AckList l r)

  pub inject_connect_ack-Asks :
      (target : ℕ) (msg raw : List ℕ) (a : Acks) (c : Ctl)
      → Asks e 0x1700c0 16 target msg raw c
      → inject_connect_ack e w target msg a c ≡ ack_client e w (client raw c) a c
  unfolding inject_connect_ack
  inject_connect_ack-Asks target msg raw a c k =
      simp (k.enabled, k.long, k.to_server, k.typed, k.named)

  pub inject_forget_ack-Asks :
      (target : ℕ) (msg raw : List ℕ) (a : Acks) (c : Ctl)
      → Asks e 0x170120 12 target msg raw c
      → inject_forget_ack e target msg a c ≡ forget_client (q_find_slot (c_string raw) c) a c
  unfolding inject_forget_ack
  inject_forget_ack-Asks target msg raw a c k =
      simp (k.enabled, k.long, k.to_server, k.typed, k.named)

  -- Once a client's connect is answered with room in the array, a request of whatever client for the
  -- same reply queue, in whatever later segment, is not answered and changes nothing.
  pub connect_once :
      (target later s t : ℕ) (hello again raw other cid did : List ℕ) (a : Acks) (c d : Ctl)
      → length a.acked < 32
      → Asks e 0x1700c0 16 target hello raw c
      → client raw c ≡ some (s, cid)
      → Asks e 0x1700c0 16 later again other d
      → client other d ≡ some (t, did)
      → (queue_at t d).id ≡ (queue_at s c).id
      → let b = (inject_connect_ack e w target hello a c).0 in
        inject_connect_ack e w later again b d ≡ (b, d)
  connect_once target later s t hello again raw other cid did a c d room k found k' found' same =
      let recorded = ack_client-holds s cid a c room in
      rw (inject_connect_ack-Asks target hello raw a c k) (
        rw (inject_connect_ack-Asks later again other _ d k')
          (rw (found, found', same, recorded) refl))
