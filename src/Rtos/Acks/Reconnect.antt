-- ===== src/Rtos/Acks/Reconnect.antt =====
-- A client that disconnects from the config server and connects again, with the requests of other
-- clients between the two.
use tnc640unix.Base.{ℕ, ◌≡◌, ◌≢◌, some, List}
use tnc640unix.Rtos.State.{Ctl, Caller, Env}
use tnc640unix.Rtos.Queues.{queue_at}
use tnc640unix.Rtos.Acks.{Acks}
use tnc640unix.Rtos.Acks.Request.{leading}
use tnc640unix.Rtos.Acks.Config.{client, inject_connect_ack, inject_forget_ack}

-- A connect request that the code answers does so to another queue than `q`.
pub record Elsewhere (q : ℕ) (msg : List ℕ) (c : Ctl) : Type 0 where
  pub other :
      (raw cid : List ℕ) (s : ℕ)
      → leading msg ≡ some raw
      → client raw c ≡ some (s, cid)
      → (queue_at s c).id ≢ q

-- What the sends of a process do to its lists, each in a segment of its own, as long as no connect
-- request is answered to the queue `q`: connects, disconnects of any client, and whatever leaves
-- acked_qids as it is.
pub data Between (e : Env) (q : ℕ) (a : Acks) : Acks → Type 0 where
  start : Between e q a a
  connects :
      {b : Acks} (w : Caller) (target : ℕ) (msg : List ℕ) (c : Ctl)
      → Between e q a b
      → Elsewhere q msg c
      → Between e q a (inject_connect_ack e w target msg b c).0
  disconnects :
      {b : Acks} (target : ℕ) (msg : List ℕ) (c : Ctl)
      → Between e q a b
      → Between e q a (inject_forget_ack e target msg b c)
  rest : {b d : Acks} → Between e q a b → d.acked ≡ b.acked → Between e q a d
