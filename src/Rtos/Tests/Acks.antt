-- ===== src/Rtos/Tests/Acks.antt =====
-- The synthetic answers at a config server and one client.
use tnc640unix.Base.{
  ℕ, ◌≡◌, ◌≤◌, refl, true, none, some, List, [], ◌∷◌, ◌++◌, arith, length, bytes32, codes,
}
use tnc640unix.Rtos.Table.{find_slot}
use tnc640unix.Rtos.State.{Ctl, Env, no_queue, default_env}
use tnc640unix.Rtos.Acks.{Acks, no_acks}
use tnc640unix.Rtos.Acks.Request.{leading}
use tnc640unix.Rtos.Acks.Config.{client, connect_ack, inject_connect_ack, inject_forget_ack}
use tnc640unix.Rtos.Acks.Event.{evt_ack, handwheel_message, error_answer}
use tnc640unix.Rtos.Acks.Peer.{PeerReply, peer_ack, granted, broadcast_ack}
use tnc640unix.Rtos.Acks.Dedup.{AckList}
use tnc640unix.Rtos.Acks.Clients.{Asks, here, next, connect, Reach-AckList}
use tnc640unix.Rtos.Acks.Bounds.{answers_fit}
use tnc640unix.Rtos.Tests.{first_thread, one_task}

abbrev acking : Env
acking = record default_env { inject_ack = true }

-- The queues of the server and of its client
abbrev server_and_client : Ctl
server_and_client = record one_task {
  next_q = 0x302;
  queues =
      record no_queue { used = true; id = 0x300; name = codes "CfgServerQueue" }
      ∷ record no_queue { used = true; id = 0x301; name = codes "QueueHrMmi" }
      ∷ [];
}

abbrev its_name : List ℕ
its_name = codes "QueueHrMmi"

-- A request with a leading string
abbrev request : ℕ → List ℕ
request type = bytes32 type ++ (bytes32 0xe7 ++ (bytes32 10 ++ its_name))

connect-Asks : Asks acking 0x1700c0 16 0x300 (request 0x1700c0) its_name server_and_client
unfolding leading find_slot
connect-Asks = record { enabled = refl; long = refl; to_server = refl; typed = refl; named = refl }

nothing_acked : AckList []
nothing_acked = record { once = λ y. omega arith; room = omega arith }

Reach-AckList_example :
    AckList
      (inject_connect_ack acking first_thread 0x300
        (request 0x1700c0)
        no_acks
        server_and_client).0.acked
Reach-AckList_example =
    Reach-AckList acking first_thread {a = no_acks} nothing_acked
      (next here (connect 0x300 (request 0x1700c0) no_acks server_and_client))

client_of : client its_name server_and_client ≡ some (1, its_name)
unfolding client find_slot
client_of = refl

-- The same queues after a message for the server
abbrev later_segment : Ctl
later_segment = record server_and_client { next_q = 0x303 }

abbrev forgotten_lists : Acks
forgotten_lists = inject_forget_ack acking 0x300 (request 0x170120) no_acks server_and_client

-- The lists after a second disconnect
abbrev between_lists : Acks
between_lists = inject_forget_ack acking 0x300 (request 0x170120) forgotten_lists server_and_client

abbrev ipo : PeerReply
ipo = record {
  request = 0x01a90040;
  reply = 0x41a90080;
  peer = b'I';
  fields = (0x01a9006b, none) ∷ (0x63, none) ∷ (0xe7, none) ∷ (0x63, none) ∷ [];
}

answers_fit_example :
    (length (connect_ack its_name) ≤ 160)
    × (length (peer_ack (granted true ipo)) ≤ 64)
    × (length evt_ack ≤ 64)
    × (length error_answer ≤ 32)
    × (length broadcast_ack ≤ 24)
    × (length (handwheel_message []) ≤ 1024)
unfolding leading
answers_fit_example =
    answers_fit (request 0x1700c0) its_name its_name [] server_and_client 1 0x01a90040 ipo true refl
      client_of (omega arith) refl
