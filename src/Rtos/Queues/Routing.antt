-- ===== src/Rtos/Queues/Routing.antt =====
-- Which queue an address of the form "<mailslot>.<queue>" or ".<queue>" reaches.
use tnc640unix.Base.{
  ℕ, ◌≤◌, ◌≡◌, ◌≢◌, refl, ap, ◌∙◌, true, false, ◌&&◌, ◌||◌, not, Option, none, some, List, [], ◌∷◌,
  ◌++◌, arith, if◌then◌else◌, ◌==◌, length, take_of_le, codes,
}
use tnc640unix.Rtos.Names.{name_chars, q_basename, split_last, occurs}
use tnc640unix.Rtos.State.{Ctl, Caller, Env}
use tnc640unix.Rtos.Queues.{is_empty, queue_at, q_find_slot}
use tnc640unix.Rtos.Queues.Ident.{
  id_in, synth_in, dot_lead, real_id, compound_of, compound, ident_end, ident_other, ident_rest,
  q_ident,
}

-- A dot-free end is what stands behind the last dot.
split_last-append :
    (before after : List ℕ)
    → split_last b'.' after ≡ none
    → split_last b'.' (before ++ (b'.' ∷ after)) ≡ some (before, after)
unfolding split_last
split_last-append [] after h = rw h refl
split_last-append (x ∷ before) after h = rw (split_last-append before after h) refl

basename-compound :
    (before after : List ℕ)
    → length (before ++ (b'.' ∷ after)) ≤ name_chars
    → split_last b'.' after ≡ none
    → q_basename (some (before ++ (b'.' ∷ after))) ≡ before
unfolding q_basename
basename-compound before after short h =
    ap (λ nm. elim (split_last b'.' nm) [ some (b, _) ↦ b | none ↦ nm ])
      (take_of_le name_chars (before ++ (b'.' ∷ after)) short)
    ∙ ap
        (λ (o : Option (List ℕ × List ℕ)). elim o [
          | some (b, _) ↦ b
          | none ↦ before ++ (b'.' ∷ after)
        ])
        (split_last-append before after h)

dot_lead-compound :
    (e : Env) (x : ℕ) (before after : List ℕ) (c : Ctl)
    → split_last b'.' after ≡ none
    → dot_lead e ((x ∷ before) ++ (b'.' ∷ after)) c ≡ 0
unfolding dot_lead
dot_lead-compound e x before after c h =
    ap
      (λ (o : Option (List ℕ × List ℕ)).
        if e.qident_dotlead
          && (x == b'.' && (not (is_empty rest) && not (elim o [ none ↦ false | some p ↦ true ])))
        then id_in c (q_find_slot rest c)
        else 0)
      (split_last-append before after h)
    ∙ ground arith
  where
    rest : List ℕ
    rest = before ++ (b'.' ∷ after)

compound-real :
    (x : ℕ) (before after : List ℕ) (s : ℕ) (c : Ctl)
    → split_last b'.' after ≡ none
    → is_empty after ≡ false
    → q_find_slot after c ≡ some s
    → (queue_at s c).synth ≡ 0
    → compound ((x ∷ before) ++ (b'.' ∷ after)) c ≡ (queue_at s c).id
unfolding compound
compound-real x before after s c h some_after at synth =
    ap (compound_of c) (split_last-append (x ∷ before) after h)
    ∙ (λ i. if not (some_after i) then real_id c (at i) else 0)
    ∙ ground arith

-- An address "<mailslot>.<queue>" whose mailslot is not a queue, or only a synthetic stand-in,
-- reaches the queue that stands behind its dot, where that is a real one; no stand-in is made.
-- The whole address fits a name, and is not one of the MMI's host frame.
pub q_ident_compound :
    (e : Env) (w : Caller) (x : ℕ) (before after : List ℕ) (s : ℕ) (c : Ctl)
    → e.qident_notify ≡ true
    → length ((x ∷ before) ++ (b'.' ∷ after)) ≤ name_chars
    → split_last b'.' after ≡ none
    → is_empty after ≡ false
    → occurs (codes "mmi.qHF") ((x ∷ before) ++ (b'.' ∷ after)) ≡ false
    → (id_in c (q_find_slot (x ∷ before) c) == 0 || synth_in c (q_find_slot (x ∷ before) c)) ≡ true
    → q_find_slot after c ≡ some s
    → (queue_at s c).synth ≡ 0
    → (queue_at s c).id ≢ 0
    → q_ident e w ((x ∷ before) ++ (b'.' ∷ after)) c ≡ ((queue_at s c).id, c)
unfolding q_ident ident_rest ident_end ident_other
q_ident_compound e w x before after s c on short h some_after no_frame unbacked at synth ne =
    ap (λ led. if not (led == 0) then (led, c) else ident_rest e w nm (q_basename (some nm)) c)
      (dot_lead-compound e x before after c h)
    ∙ ap (λ base. ident_rest e w nm base c) (basename-compound (x ∷ before) after short h)
    ∙ rest
  where
    nm : List ℕ
    nm = (x ∷ before) ++ (b'.' ∷ after)

    other : ident_other e nm (x ∷ before) (q_find_slot (x ∷ before) c) c ≡ (queue_at s c).id
    other =
        (λ i. if unbacked i && (on i && true) then compound nm c else 0)
        ∙ compound-real x before after s c h some_after at synth

    rest : ident_rest e w nm (x ∷ before) c ≡ ((queue_at s c).id, c)
    rest = ground (arith, other, no_frame)
