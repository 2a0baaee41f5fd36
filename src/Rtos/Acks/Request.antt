-- ===== src/Rtos/Acks/Request.antt =====
-- What the INJECT_*_ACK knobs read of a request: its type, the reply queue that its leading string
-- names, and the queue that this name embeds.
use tnc640unix.Base.{
  ℕ, suc, ◌+◌, ◌%◌, ◌^◌, Bool, false, ◌&&◌, not, Option, none, some, List, [], ◌∷◌, if◌then◌else◌,
  ◌==◌, ltb, leb, length, take, drop, bytes_eq, get32,
}
use tnc640unix.Rtos.Names.{occurs}
use tnc640unix.Rtos.State.{Queue, Ctl}
use tnc640unix.Rtos.Queues.{is_empty, q_slot, queue_at, q_find_slot}
use tnc640unix.Rtos.Queues.Send.{c_string, or_else}

-- `hdr&0x7fffffff`
abbrev pub type_of : List ℕ → ℕ
type_of msg = get32 msg 0 % 2 ^ 31

-- The bytes of the leading string, of 1 to 64 bytes, of a message of at least 12 bytes
unfoldable pub leading : List ℕ → Option (List ℕ)
leading msg =
    let n = get32 msg 8 in
    if get32 msg 4 == 0xe7 && (not (n == 0) && (leb n 64 && leb (12 + n) (length msg)))
    then some (take n (drop 12 msg))
    else none

-- The message goes to the queue of that name.
abbrev pub is_for : List ℕ → ℕ → Ctl → Bool
is_for name target c = elim (q_slot target c) [
  | none ↦ false
  | some s ↦ bytes_eq (queue_at s c).name name
]

-- A queue of at least four characters that the name contains
abbrev pub embedded : List ℕ → Queue → Bool
embedded name q = q.used && (not (is_empty q.name) && (leb 4 (length q.name) && occurs q.name name))

abbrev pub watched : Queue → Bool
watched q = not (q.notify_bits == 0)

-- The scan for the longest name: the first of the longest that pass the test
unfoldable pub longest : (Queue → Bool) → ℕ → Option ℕ → ℕ → List Queue → Option ℕ
longest test i best l [] = best
longest test i best l (q ∷ qs) =
    let hit = test q && ltb l (length q.name) in
    longest test (suc i) (if hit then some i else best) (if hit then length q.name else l) qs

-- The longest watched queue that the name embeds
unfoldable pub watched_match : List ℕ → Ctl → Option ℕ
unfolding longest
watched_match name c = longest (λ q. embedded name q && watched q) 0 none 0 c.queues

-- The longest watched queue that the name embeds, else the longest one
unfoldable pub best_match : List ℕ → Ctl → Option ℕ
unfolding watched_match longest
best_match name c = or_else (watched_match name c) (longest (embedded name) 0 none 0 c.queues)

-- The slot to reply to, for the bytes of a leading string
unfoldable pub reply_slot : List ℕ → Ctl → Option ℕ
unfolding best_match
reply_slot raw c = or_else (q_find_slot (c_string raw) c) (best_match (c_string raw) c)
