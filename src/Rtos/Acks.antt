-- ===== src/Rtos/Acks.antt =====
-- The synthetic replies to the connect and poll requests of a client whose peer is absent: the
-- INJECT_*_ACK knobs of the send call. The lists are the static arrays of the process; a message
-- is the list of its bytes.
pub mod Request
pub mod Config
pub mod Event
pub mod Peer
pub mod Dedup
pub mod Clients
pub mod Reconnect
pub mod Bounds
use tnc640unix.Base.{
  ℕ, ◌+◌, ◌-◌, Bool, ◌||◌, false, Option, none, some, List, [], ◌∷◌, ◌++◌, if◌then◌else◌, ◌==◌, ltb,
  length, take, get_or, set,
}
use tnc640unix.Rtos.Table.{find_slot}

-- acked_qids, evt_acked_qids and peer_acked with their counts; n_evterr_replied,
-- deferred_evterr_rqid, active_hw_done and n_bcast_replied
pub record Acks : Type 0 where
  pub acked : List ℕ
  pub evt_acked : List ℕ
  pub peer_acked : List ℕ
  pub evterr_replied : ℕ
  pub deferred : ℕ
  pub active_hw_done : Bool
  pub bcast_replied : ℕ

abbrev pub no_acks : Acks
no_acks = record {
  acked = [];
  evt_acked = [];
  peer_acked = [];
  evterr_replied = 0;
  deferred = 0;
  active_hw_done = false;
  bcast_replied = 0;
}

-- The knobs INJECT_EVT_ACK, INJECT_PEER_ACK, CM_GRANT, EVTERR_DEFER and INJECT_ACTIVE_HW, and the
-- bytes of ACTIVE_HW_FILE, of which 1024 at most are read
pub record Knobs : Type 0 where
  pub inject_evt_ack : Bool
  pub inject_peer_ack : Bool
  pub cm_grant : Bool
  pub evterr_defer : Bool
  pub inject_active_hw : Bool
  pub active_hw_file : List ℕ

abbrev pub holds : ℕ → List ℕ → Bool
holds x [] = false
holds x (y ∷ ys) = y == x || holds x ys

-- `if(n<cap) list[n++]=x;`
unfoldable pub remember : ℕ → ℕ → List ℕ → List ℕ
remember cap x xs = if ltb (length xs) cap then xs ++ (x ∷ []) else xs

-- `list[i]=list[--n]`
abbrev pub without : List ℕ → Option ℕ → List ℕ
without xs none = xs
without xs (some i) = set (take (length xs - 1) xs) i (get_or xs (length xs - 1) 0)

-- `if(list[i]==x){ list[i]=list[--n]; return; }`, for the first such i
unfoldable pub forget : ℕ → List ℕ → List ℕ
forget x xs = without xs (find_slot (λ y. y == x) xs)
