-- ===== src/Rtos/Events/Delivery.antt =====
-- Event bits are neither lost nor made up between Ev_send and Ev_receive.
use tnc640unix.Base.{
  ℕ, ◌-◌, ◌^◌, ◌≤◌, ◌<◌, ◌≡◌, ◌≢◌, Bool, true, false, some, arith, min, length, get_or-set_self,
  get_or-set_ne, bit_and, bit_or, bit_not, bit, bit-lt, bit-bit_and, bit-bit_or, bit-clear, bit_ext,
  bit-zero, bit_and-le, ap, sym, subst, ◌∙◌, refl, inl, inr, Bool-cases, ◌+◌, ◌&&◌, not, ltb, ◌==◌,
}
use tnc640unix.Rtos.State.{Task, Ctl, no_task}
use tnc640unix.Rtos.Tasks.{task_slot, task_at, put_task}
use tnc640unix.Rtos.Events.{raise, ev_send, Turn, returns, satisfied, ev_check, ev_turn, tc_bit}

-- The event word of a slot.
abbrev pub word : ℕ → Ctl → ℕ
word s c = (task_at s c).events

pub task_at-put : (s : ℕ) (t : Task) (c : Ctl) → s < length c.tasks → task_at s (put_task s t c) ≡ t
task_at-put s t c h = get_or-set_self c.tasks s t no_task h

pub task_at-put_ne :
    (s j : ℕ) (t : Task) (c : Ctl) → s ≢ j → task_at j (put_task s t c) ≡ task_at j c
task_at-put_ne s j t c h = get_or-set_ne c.tasks s j t no_task h

-- How a receive splits the event word: what it returns and what it leaves pending.
pub record Split (before want caught after : ℕ) : Type 0 where
  pub taken : (i : ℕ) → bit i caught ≡ min (bit i before) (bit i want)
  pub left : (i : ℕ) → bit i after ≡ min (bit i before) (1 - bit i want)

split :
    (w want : ℕ) → w < 2 ^ 32 → Split w want (bit_and w want) (bit_and w (bit_not (bit_and w want)))
split w want h = record {
  taken = λ i. bit-bit_and i w want;
  left = λ i. omega (
    arith,
    bit-clear i w (bit_and w want) h (omega (arith, bit_and-le w want)),
    bit-bit_and i w want,
    bit-lt i w,
    bit-lt i want,
  );
}

-- The state behind a turn whose condition holds.
abbrev pub consumed : ℕ → ℕ → Ctl → Task
consumed s want c = record (task_at s c) {
  nowait_miss = 0;
  events = bit_and (word s c) (bit_not (bit_and (word s c) want));
}

pub ev_check-satisfied :
    (s want cond timeout : ℕ) (expired : Bool) (c : Ctl)
    → satisfied cond (word s c) want ≡ true
    → ev_check s want cond timeout expired c
      ≡ (returns (bit_and (word s c) want), put_task s (consumed s want c) c)
unfolding ev_check
ev_check-satisfied s want cond timeout expired c sat = rw sat

-- A turn of Ev_receive whose condition holds, whatever its timeout, returns exactly the wanted
-- bits that are pending and leaves exactly the pending bits that are not wanted.
pub ev_check-Split :
    (s want cond timeout : ℕ) (expired : Bool) (c : Ctl)
    → s < length c.tasks
    → word s c < 2 ^ 32
    → satisfied cond (word s c) want ≡ true
    → (v : ℕ) × ((ev_check s want cond timeout expired c).0 ≡ returns v)
      × Split (word s c) want v (word s (ev_check s want cond timeout expired c).1)
ev_check-Split s want cond timeout expired c inside fits sat = (
  bit_and (word s c) want,
  ap (λ (r : Turn × Ctl). r.0) (ev_check-satisfied s want cond timeout expired c sat),
  subst (Split (word s c) want (bit_and (word s c) want)) (sym after) (split (word s c) want fits),
)
  where
    after :
        word s (ev_check s want cond timeout expired c).1
        ≡ bit_and (word s c) (bit_not (bit_and (word s c) want))
    after =
        ap (λ (r : Turn × Ctl). word s r.1) (ev_check-satisfied s want cond timeout expired c sat)
        ∙ ap (λ (t : Task). t.events) (task_at-put s (consumed s want c) c inside)

-- Any other turn leaves the segment as it is.
pub ev_check_unsatisfied :
    (s want cond timeout : ℕ) (expired : Bool) (c : Ctl)
    → satisfied cond (word s c) want ≡ false
    → (ev_check s want cond timeout expired c).1 ≡ c
unfolding ev_check
ev_check_unsatisfied s want cond timeout expired c sat = ground arith

pub bit_and-ne-zero : (w bits want : ℕ) → bit_and bits want ≢ 0 → bit_and (bit_or w bits) want ≢ 0
bit_and-ne-zero w bits want ne e = ne (
    bit_ext (bit_and bits want) 0 λ i. omega (
      arith,
      bit-bit_and i bits want,
      bit-bit_and i (bit_or w bits) want,
      bit-bit_or i w bits,
      ap (bit i) e,
      bit-zero i,
    ))

-- Bits that are sent end the test of a turn that gets as far as the test.
pub ev_check_wakes :
    (task s bits want timeout : ℕ) (expired : Bool) (c : Ctl)
    → task_slot task c ≡ some s
    → s < length c.tasks
    → bit_and bits want ≢ 0
    → (v : ℕ) × ((ev_check s want 2 timeout expired (ev_send task bits c).1).0 ≡ returns v)
      × ((i : ℕ) → bit i (bit_and bits want) ≤ bit i v)
unfolding ev_send
ev_check_wakes task s bits want timeout expired c at inside ne =
    rw (at, ev_send)
      (
        bit_and (word s d) want,
        ap (λ (r : Turn × Ctl). r.0)
            (ev_check-satisfied s want 2 timeout expired d
              (rw now (ground (arith, bit_and-ne-zero (word s c) bits want ne)))),
        λ i. rw now (
            omega (
              arith,
              bit-bit_and i bits want,
              bit-bit_and i (bit_or (word s c) bits) want,
              bit-bit_or i (word s c) bits,
            )),
      )
  where
    d : Ctl
    d = raise s bits c

    now : word s d ≡ bit_or (word s c) bits
    now = ap (λ (t : Task). t.events) (task_at-put s _ c inside)

-- A turn that wants the rendezvous bit takes a token that is there before it tests its event word.
abbrev pub token_ready : ℕ → Ctl → Bool
token_ready want c = not (bit_and want tc_bit == 0) && ltb 0 c.orphan_tc

-- The sent bits that are wanted are in a word.
abbrev pub Within : ℕ → ℕ → ℕ → Type 0
Within bits want v = (i : ℕ) → bit i (bit_and bits want) ≤ bit i v

-- What a turn that returns `v` does with bits that were sent to the task before it in `c`.
pub data Woken (s bits want v : ℕ) (c after : Ctl) : Type 0 where
  by_bits : token_ready want c ≡ false → Within bits want v → Woken s bits want v c after
  by_token :
      token_ready want c ≡ true
      → v ≡ bit_and want tc_bit
      → after.orphan_tc + 1 ≡ c.orphan_tc
      → Within bits want (word s after)
      → Woken s bits want v c after

-- The turn in the segment `d` that a send leaves.
turn_wakes :
    (s bits want timeout : ℕ) (expired : Bool) (c d : Ctl)
    → word s d ≡ bit_or (word s c) bits
    → d.orphan_tc ≡ c.orphan_tc
    → ((v : ℕ) × ((ev_check s want 2 timeout expired d).0 ≡ returns v) × Within bits want v)
    → (v : ℕ) × ((ev_turn s want 2 timeout expired d).0 ≡ returns v)
      × Woken s bits want v c (ev_turn s want 2 timeout expired d).1
unfolding ev_turn
turn_wakes s bits want timeout expired c d now same (v, back, all) =
    elim (Bool-cases (token_ready want d)) [
      | inl token ↦ rw token (
        bit_and want tc_bit,
        refl,
        by_token (rw (← same) token) refl (ground (arith, same))
            (λ i. rw now (omega (arith, bit-bit_and i bits want, bit-bit_or i (word s c) bits))),
      )
      | inr no_token ↦ rw no_token (v, back, by_bits (rw (← same) no_token) all)
    ]

-- No wake-up is lost: when bits that a task waits for (in the mode that any one of them ends) are
-- sent to it, the next turn of its Ev_receive returns. Unless the task wants the rendezvous bit and
-- a token is there, every sent bit that it wants is in the word that it returns; otherwise the turn
-- takes one token, returns the rendezvous bit, and all those bits stay pending.
pub ev_send_wakes :
    (task s bits want timeout : ℕ) (expired : Bool) (c : Ctl)
    → task_slot task c ≡ some s
    → s < length c.tasks
    → bit_and bits want ≢ 0
    → (v : ℕ) × ((ev_turn s want 2 timeout expired (ev_send task bits c).1).0 ≡ returns v)
      × Woken s bits want v c (ev_turn s want 2 timeout expired (ev_send task bits c).1).1
unfolding ev_send
ev_send_wakes task s bits want timeout expired c at inside ne =
    subst
      (λ d.
        (v : ℕ) × ((ev_turn s want 2 timeout expired d).0 ≡ returns v)
        × Woken s bits want v c (ev_turn s want 2 timeout expired d).1)
      (sym sent)
      (turn_wakes s bits want timeout expired c (raise s bits c)
        (ap (λ (t : Task). t.events) (task_at-put s _ c inside)) refl
        (subst
          (λ d.
            (v : ℕ) × ((ev_check s want 2 timeout expired d).0 ≡ returns v) × Within bits want v)
          sent (ev_check_wakes task s bits want timeout expired c at inside ne)))
  where
    sent : (ev_send task bits c).1 ≡ raise s bits c
    sent = rw (at, ev_send) refl
