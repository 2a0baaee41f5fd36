-- ===== src/Rtos/Semaphores/Laws.antt =====
-- One caller at a time: names, and the count as a barrier.
use tnc640unix.Base.{
  ℕ, zero, suc, ◌+◌, ◌-◌, ◌^◌, ◌≤◌, ◌<◌, min, ◌≡◌, refl, sym, ap, ◌∙◌, inl, inr, ◌⊎◌, none, some,
  arith, subst, length, length-set, get_elem?-eq-get_or, get_or-set_self, pos, negsuc,
}
use tnc640unix.Rtos.Table.{find_slot-set}
use tnc640unix.Rtos.State.{Sem, Ctl, no_sem}
use tnc640unix.Rtos.Semaphores.{
  sem_slot, sem_at, put_sem, at_least_one, minus32, plus32, Turn, answers, request_at, sem_request,
  release_at, sem_release,
}

sem_at-put : (s : ℕ) (x : Sem) (c : Ctl) → s < length c.sems → sem_at s (put_sem s x c) ≡ x
sem_at-put s x c h = get_or-set_self c.sems s x no_sem h

-- A write that keeps the entry's id keeps every lookup.
sem_slot-put :
    (id s : ℕ) (x : Sem) (c : Ctl)
    → s < length c.sems
    → x.used ≡ (sem_at s c).used
    → x.id ≡ (sem_at s c).id
    → sem_slot id (put_sem s x c) ≡ sem_slot id c
sem_slot-put id s x c inside u i =
    find_slot-set _ c.sems s x (sem_at s c) (get_elem?-eq-get_or c.sems s no_sem inside)
      (ground arith)

-- A turn that answers 0 has been granted.
abbrev granted : Turn → ℕ
granted (answers (pos zero)) = 1
granted _ = 0

-- `k` requests of one unit each that do not wait: how many are granted.
pub grants : ℕ → ℕ → Ctl → ℕ
grants zero id c = 0
grants (suc k) id c = let (answer, d) = sem_request id 1 0 c in granted answer + grants k id d

abbrev taken : ℕ → ℕ → Ctl → Ctl
taken s units c = put_sem s (record (sem_at s c) { count = minus32 (sem_at s c).count units }) c

-- Where a semaphore of this id stands, a request is the turn on its slot.
request-slot :
    (id s units timeout : ℕ) (c : Ctl)
    → sem_slot id c ≡ some s
    → sem_request id units timeout c ≡ request_at s units timeout c
unfolding sem_request
request-slot id s units timeout c at =
    ap (λ o. elim o [ none ↦ (answers (negsuc 6), c) | some s ↦ request_at s units timeout c ]) at

release-slot :
    (id s units : ℕ) (c : Ctl)
    → sem_slot id c ≡ some s
    → sem_release id units c ≡ (pos 0, release_at s units c)
unfolding sem_release
release-slot id s units c at =
    ap (λ o. elim o [ none ↦ (negsuc 6, c) | some s ↦ (pos 0, release_at s units c) ]) at

request_at-grant :
    (s units timeout : ℕ) (c : Ctl)
    → 0 < units
    → units ≤ (sem_at s c).count
    → (sem_at s c).count < 2 ^ 31
    → request_at s units timeout c ≡ (answers (pos 0), taken s units c)
unfolding request_at
request_at-grant s units timeout c p le small = ground arith

request_at-refuse :
    (s units : ℕ) (c : Ctl)
    → 0 < units
    → units < 2 ^ 31
    → (sem_at s c).count < units
    → request_at s units 0 c ≡ (answers (negsuc 60), c)
unfolding request_at
request_at-refuse s units c p small lt = ground arith

abbrev count_of : ℕ → Ctl → ℕ
count_of s c = (sem_at s c).count

taken-slot :
    (id s units : ℕ) (c : Ctl)
    → sem_slot id c ≡ some s
    → s < length c.sems
    → sem_slot id (taken s units c) ≡ some s
taken-slot id s units c at inside = sem_slot-put id s _ c inside refl refl ∙ at

taken-count :
    (s units : ℕ) (c : Ctl)
    → s < length c.sems
    → units ≤ count_of s c
    → count_of s c < 2 ^ 31
    → count_of s (taken s units c) ≡ count_of s c - units
taken-count s units c inside le small = ap (λ x. x.count) (sem_at-put s _ c inside) ∙ omega arith

grants-step :
    (k id s : ℕ) (c : Ctl)
    → sem_slot id c ≡ some s
    → (answer : Turn) (d : Ctl) → request_at s 1 0 c ≡ (answer, d)
    → grants (suc k) id c ≡ granted answer + grants k id d
unfolding grants
grants-step k id s c at answer d e =
    ap (λ t. let (a, x) = t in granted a + grants k id x) (request-slot id s 1 0 c at ∙ e)

-- Requests of one unit that do not wait are granted while the count lasts, and no longer.
grants-count :
    (k id s : ℕ) (c : Ctl)
    → sem_slot id c ≡ some s
    → s < length c.sems
    → count_of s c < 2 ^ 31
    → grants k id c ≡ min k (count_of s c)
unfolding grants
grants-count zero id s c at inside small = omega arith
grants-count (suc k) id s c at inside small = elim (cases (count_of s c)) [
  | inl empty ↦
      let step =
        grants-step k id s c at _ _
          (request_at-refuse s 1 c (omega arith) (omega arith) (omega arith)) in
      omega (arith, step, grants-count k id s c at inside small)
  | inr full ↦
      let step = grants-step k id s c at _ _ (request_at-grant s 1 0 c (omega arith) full small) in
      let left = taken-count s 1 c inside full small in
      omega (
        arith,
        step,
        left,
        grants-count k id s (taken s 1 c) (taken-slot id s 1 c at inside)
            (omega (
              arith,
              inside,
              length-set c.sems s (record (sem_at s c) { count = minus32 (count_of s c) 1 }),
            ))
            (omega arith),
      )
]
  where
    cases : (n : ℕ) → (n ≡ 0) ⊎ (1 ≤ n)
    cases zero = inl refl
    cases (suc n) = inr (omega arith)

-- Releasing `n` units of a semaphore lets exactly as many single requests through as there are
-- units then: every one of `k` waiters, if that many units were there or released.
pub release_opens_barrier :
    (id s n k : ℕ) (c : Ctl)
    → sem_slot id c ≡ some s
    → s < length c.sems
    → 0 < n
    → count_of s c + n < 2 ^ 31
    → let (answer, d) = sem_release id n c in
      (answer ≡ pos 0) × (grants k id d ≡ min k (count_of s c + n))
unfolding release_at
release_opens_barrier id s n k c at inside p small =
    subst
      (λ t. let (answer, d) = t in (answer ≡ pos 0) × (grants k id d ≡ min k (count_of s c + n)))
      (sym (release-slot id s n c at))
      (
        refl,
        omega (
          arith,
          opened,
          grants-count k id s (release_at s n c) (sem_slot-put id s _ c inside refl refl ∙ at)
              (omega (arith, inside, length-set c.sems s after)) (omega (arith, opened)),
        ),
      )
  where
    after : Sem
    after = record (sem_at s c) { count = plus32 (count_of s c) (at_least_one n) }

    opened : count_of s (release_at s n c) ≡ count_of s c + n
    opened = ap (λ x. x.count) (sem_at-put s after c inside) ∙ ground arith
