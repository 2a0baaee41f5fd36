-- ===== src/Rtos/Queues/Serials.antt =====
-- WM_SERIAL_FIX: the serial numbers that a client of the window manager sees.
pub mod Operations
use Operations.{
  as_tick, Operation, ticks, events, reads, taken, operate, run, marks, InOrder, KeepsUp, sends,
  following, Account, ticked, renumber-tick, shifted, renumber-event, shifted-serial,
}
use tnc640unix.Base.{
  ℕ, zero, suc, ◌+◌, ◌%◌, ◌^◌, ◌≤◌, ◌<◌, ◌≡◌, refl, ap, ◌∙◌, Bool, true, false, List, [], ◌∷◌,
  arith, if◌then◌else◌, ◌==◌, length, get32, put32, get32-put32, ◌++◌, sym, length-append, get_or,
  drop, inl, inr, Bool-cases,
}
use tnc640unix.Rtos.State.{Queue, Env, Msg}
use tnc640unix.Rtos.Queues.Send.{renumber, is_wmq, deliver}
use tnc640unix.Rtos.Queues.Ring.{append, front, dequeue, has_message}
use tnc640unix.Rtos.Queues.Fifo.{
  contents, RingOk, append-contents, make_room-free, dequeue-contents,
}

following-suc : (k n : ℕ) → following k (suc n) ≡ following k n ++ ((k + n + 1) % 2 ^ 32 ∷ [])
unfolding following
following-suc k zero = ap (λ x. x % 2 ^ 32 ∷ []) (omega arith)
following-suc k (suc n) =
    ap (◌∷◌ ((k + 1) % 2 ^ 32))
      (following-suc (k + 1) n ∙ ap (λ x. following (k + 1) n ++ (x % 2 ^ 32 ∷ [])) (omega arith))

marks-append : (xs ys : List Msg) → marks (xs ++ ys) ≡ marks xs ++ marks ys
unfolding marks
marks-append [] ys = refl
marks-append (x ∷ xs) ys = ap (◌∷◌ (get32 x.body 4)) (marks-append xs ys)

-- The queue of a window-manager client: `k` events of winmgr so far, the unread messages carry the
-- serials after `first`, and the last one given is `last`.
pub record Numbered (k first last : ℕ) (q : Queue) : Type 0 where
  pub name : is_wmq q.name ≡ true
  pub account : Account k last q
  pub ring : RingOk q
  pub unread : marks (contents q) ≡ following first (length (contents q))
  pub ends : first + length (contents q) ≡ last

-- The write of the next serial, behind the account of it
append-Numbered :
    (k first last : ℕ) (m : Msg) (q r : Queue)
    → Numbered k first last q
    → contents r ≡ contents q
    → RingOk r
    → is_wmq r.name ≡ true
    → (j : ℕ) → Account j (last + 1) r
    → get32 m.body 4 ≡ (last + 1) % 2 ^ 32
    → r.tail + 1 < 2 ^ 32
    → r.tail < r.head + 12
    → Numbered j first (last + 1) (append m r)
unfolding append marks
append-Numbered k first last m q r num same ring wm j acc serial low room =
    let (grown, ok) = append-contents m r ring low room in
    let longer : length (contents (append m r)) ≡ suc (length (contents q)) =
      ap length (grown ∙ ap (λ xs. xs ++ (m ∷ [])) same)
      ∙ length-append (contents q) (m ∷ [])
      ∙ omega arith in
    record {
      name = wm;
      account = record { sum = acc.sum; stored = acc.stored; fits = acc.fits };
      ring = ok;
      unread =
          ap marks (grown ∙ ap (λ xs. xs ++ (m ∷ [])) same)
          ∙ marks-append (contents q) (m ∷ [])
          ∙ (λ i. num.unread i ++ ((serial ∙ ap (λ x. (x + 1) % 2 ^ 32) (sym num.ends)) i ∷ []))
          ∙ sym (following-suc first (length (contents q)))
          ∙ sym (ap (following first) longer);
      ends = omega (arith, longer, num.ends);
    }

module _ (e : Env) (on : e.wm_serial_fix ≡ true) where
  tick-Numbered :
      (k first last n mode : ℕ) (body : List ℕ) (q : Queue)
      → Numbered k first last q
      → 8 ≤ length body
      → q.tail < q.head + 12
      → q.tail + 1 < 2 ^ 32
      → Numbered k first (last + 1) (deliver (as_tick true e) n mode body q)
  unfolding deliver
  tick-Numbered k first last n mode body q num long room low = rw (make_room-free q num.ring room) (
      rw (renumber-tick e body q on num.name long) (
        append-Numbered k first last _ q (ticked q) num refl
          (record {
            ordered = num.ring.ordered;
            bounded = num.ring.bounded;
            low = num.ring.low;
            slots = num.ring.slots;
          })
          num.name k
          (record {
            sum = omega (arith, num.account.sum);
            stored = omega (arith, num.account.stored);
            fits = omega arith;
          })
          (get32-put32 body 4 ((q.wm_last_serial + 1) % 2 ^ 32) (omega (arith, long)) (omega arith)
            ∙ omega (arith, num.account.stored))
          low room))

  event-Numbered :
      (k first last n mode : ℕ) (body : List ℕ) (q : Queue)
      → Numbered k first last q
      → 8 ≤ length body
      → get32 body 4 ≡ (k + 1) % 2 ^ 32
      → q.tail < q.head + 12
      → q.tail + 1 < 2 ^ 32
      → Numbered (k + 1) first (last + 1) (deliver (as_tick false e) n mode body q)
  unfolding deliver
  event-Numbered k first last n mode body q num long same room low =
      rw (make_room-free q num.ring room) (
        rw (renumber-event e body q on num.name long) (
          append-Numbered k first last _ q (record q { wm_last_serial = shifted body q }) num refl
            (record {
              ordered = num.ring.ordered;
              bounded = num.ring.bounded;
              low = num.ring.low;
              slots = num.ring.slots;
            })
            num.name (k + 1)
            (record {
              sum = omega (arith, num.account.sum);
              stored = moved;
              fits = num.account.fits;
            })
            (shifted-serial body q long (omega (arith, same)) ∙ moved) low room))
    where
      moved : shifted body q ≡ (last + 1) % 2 ^ 32
      moved = omega (arith, same, num.account.sum)

  -- A read gets the first unread message, with the next serial.
  read-Numbered :
      (k first last : ℕ) (q : Queue)
      → Numbered k first last q
      → q.head < q.tail
      → (get32 (front q).body 4 ≡ (first + 1) % 2 ^ 32) × Numbered k (first + 1) last (dequeue q)
  unfolding marks following dequeue
  read-Numbered k first last q num some_left =
      let (out, ok) = dequeue-contents q num.ring some_left in
      let split : marks (front q ∷ contents (dequeue q))
          ≡ following first (suc (length (contents (dequeue q)))) =
        sym (ap marks out) ∙ num.unread ∙ ap (λ xs. following first (length xs)) out in
      (
        ap (λ xs. get_or xs 0 0) split,
        record {
          name = num.name;
          account = record {
            sum = num.account.sum;
            stored = num.account.stored;
            fits = num.account.fits;
          };
          ring = ok;
          unread = ap (drop 1) split;
          ends = omega (arith, num.ends, ap length out);
        },
      )

  -- A read in front of operations for which the claim holds
  read_first :
      (os : List Operation) (k first last : ℕ) (q : Queue) (b : Bool)
      → has_message q ≡ b
      → ((f : ℕ) (r : Queue)
          → Numbered k f last r
          → KeepsUp e os r
          → marks (run e os r).0 ++ marks (contents (run e os r).1)
            ≡ following f (length (contents r) + sends os))
      → Numbered k first last q
      → KeepsUp e os (taken b q).1
      → marks ((taken b q).0 ++ (run e os (taken b q).1).0)
          ++ marks (contents (run e os (taken b q).1).1)
        ≡ following first (length (contents q) + sends os)
  unfolding taken marks following
  read_first os k first last q false none_left rest num up = rest first q num up
  read_first os k first last q true some_left rest num up =
      let (serial, after) =
        read-Numbered k first last q num (ground (arith, some_left, num.ring.ordered)) in
      (λ i. serial i ∷ rest (first + 1) (dequeue q) after up i)
      ∙ ap (following first) {x = suc (length (contents (dequeue q)) + sends os)}
          (omega (arith, after.ends, num.ends))

  -- What a client of the window manager sees has no gap: over any run of ticks, of winmgr's own events
  -- and of reads, where winmgr numbers its events without a gap and the client keeps up, so that no
  -- event is dropped, the messages that it reads, and behind them those that are left unread in the
  -- ring, carry all serials in order from the first unread one on, one for each message.
  pub serials_without_gap :
      (os : List Operation) (k first last : ℕ) (q : Queue)
      → Numbered k first last q
      → InOrder k os
      → KeepsUp e os q
      → marks (run e os q).0 ++ marks (contents (run e os q).1)
        ≡ following first (length (contents q) + sends os)
  unfolding run operate marks following InOrder KeepsUp
  serials_without_gap [] k first last q num ok up = num.unread ∙ ap (following first) (omega arith)
  serials_without_gap (ticks sender mode body ∷ os) k first last q num (long, ok) (room, low, up) =
      let after = tick-Numbered k first last sender mode body q num long room low in
      serials_without_gap os k first (last + 1) _ after ok up
      ∙ ap (following first) (omega (arith, after.ends, num.ends))
  serials_without_gap (events sender mode body ∷ os) k first last q num (long, same, ok)
        (room, low, up) =
      let after = event-Numbered k first last sender mode body q num long same room low in
      serials_without_gap os (k + 1) first (last + 1) _ after ok up
      ∙ ap (following first) (omega (arith, after.ends, num.ends))
  serials_without_gap (reads ∷ os) k first last q num ok up =
      read_first os k first last q (has_message q) refl
        (λ f r numbered keeps. serials_without_gap os k f last r numbered ok keeps) num up
