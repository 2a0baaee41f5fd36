-- ===== src/Rtos/Rendezvous/Handshake.antt =====
-- The rendezvous reaches the parent.
use tnc640unix.Base.{
  ℕ, ◌+◌, ◌^◌, ◌<◌, ◌≡◌, ◌≢◌, refl, inl, inr, Bool, none, some, arith, length, bit_and, bit,
  bit-bit_and, bit-zero, bit-lt, Bool-cases, ltb, bit_and_comm, ap,
}
use tnc640unix.Rtos.State.{Ctl}
use tnc640unix.Rtos.Tasks.{task_slot}
use tnc640unix.Rtos.Events.{ev_send, returns, tc_bit, ev_turn}
use tnc640unix.Rtos.Events.Delivery.{ev_check_wakes}
use tnc640unix.Rtos.Rendezvous.{announce}

-- A child with a parent that the segment does not know publishes a token: the next turn of an
-- Ev_receive that wants the rendezvous bit returns that bit, takes the token and changes nothing
-- else.
pub announce_orphan :
    (parent s want cond timeout : ℕ) (expired : Bool) (c : Ctl)
    → task_slot parent c ≡ none
    → c.orphan_tc + 1 < 2 ^ 32
    → bit_and want tc_bit ≢ 0
    → ev_turn s want cond timeout expired (announce parent c) ≡ (returns (bit_and want tc_bit), c)
unfolding announce ev_turn
announce_orphan parent s want cond timeout expired c absent small wants = ground arith

tc_digit : bit 19 tc_bit ≡ 1
unfolding bit
tc_digit = refl

any_of : (want : ℕ) → bit 19 want ≡ 1 → bit_and tc_bit want ≢ 0
any_of want h e = omega (arith, ap (bit 19) e, bit-bit_and 19 tc_bit want, bit-zero 19, tc_digit)

-- A child with a known parent: the next turn of the parent's Ev_receive that wants the rendezvous
-- bit among others, any one of them ending it, returns a word with that bit.
pub announce_known :
    (parent s want timeout : ℕ) (expired : Bool) (c : Ctl)
    → parent ≢ 0
    → task_slot parent c ≡ some s
    → s < length c.tasks
    → bit 19 want ≡ 1
    → (v : ℕ) × ((ev_turn s want 2 timeout expired (announce parent c)).0 ≡ returns v)
      × (bit 19 v ≡ 1)
unfolding announce ev_turn ev_send
announce_known parent s want timeout expired c nonzero at inside wants =
    elim (Bool-cases (ltb 0 c.orphan_tc)) [
      | inl token ↦ (
        bit_and want tc_bit,
        ground (arith, at, wanted),
        omega (arith, bit-bit_and 19 want tc_bit, tc_digit, wants),
      )
      | inr none_left ↦
          let (v, back, all) =
            ev_check_wakes parent s tc_bit want timeout expired c at inside any in
          (
            v,
            ground (arith, at, back, none_left),
            omega (arith, all 19, bit-bit_and 19 tc_bit want, tc_digit, wants, bit-lt 19 v),
          )
    ]
  where
    any : bit_and tc_bit want ≢ 0
    any = any_of want wants

    wanted : bit_and want tc_bit ≢ 0
    wanted = rw (bit_and_comm want tc_bit) any
