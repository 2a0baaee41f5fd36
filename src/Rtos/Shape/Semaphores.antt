-- ===== src/Rtos/Shape/Semaphores.antt =====
-- The operations on semaphores and regions keep the shape of the segment.
use tnc640unix.Base.{ℕ, ◌+◌, ◌%◌, ◌^◌, Option, none, some, List, [], ◌∷◌, arith, length-take}
use tnc640unix.Rtos.State.{Ctl, Env}
use tnc640unix.Rtos.Semaphores.{
  sem_at, put_sem, sem_make, sem_alloc, sem_ident, sem_request, request_at, sem_release, release_at,
  minus32, plus32, at_least_one,
}
use tnc640unix.Rtos.Regions.{reg_ident, reg_ident_at, reg_fill, region_chars, new_region}
use tnc640unix.Rtos.Shape.{
  Sizes, Shaped, stored-short, sem_at-Shape, put_sem-Shaped, put_region-Shaped, counters-Shaped,
}
use tnc640unix.Rtos.Shape.Kernel.{shapes, lookup-Shaped}

module _ (z : Sizes) where
  recount-Shaped :
      (s n : ℕ) (c : Ctl) → Shaped z c → Shaped z (put_sem s (record (sem_at s c) { count = n }) c)
  recount-Shaped s n c h = put_sem-Shaped z c h s _ (sem_at-Shape z c h s)

  sem_alloc-Shaped :
      (nm : List ℕ) (count : ℕ) (c : Ctl) → Shaped z c → Shaped z (sem_alloc nm count c).1
  unfolding sem_alloc
  sem_alloc-Shaped nm count c h = lookup-Shaped z _ _ _ h λ s.
      put_sem-Shaped z _
        (counters-Shaped z c h c.next_task ((c.next_sem + 1) % 2 ^ 32) c.next_q c.next_reg
          c.orphan_tc)
        s _ (stored-short nm)

  pub sem_make-Shaped :
      (nm : List ℕ) (count : ℕ) (c : Ctl) → Shaped z c → Shaped z (sem_make nm count c).1
  unfolding sem_make
  sem_make-Shaped [] count c h = sem_alloc-Shaped [] count c h
  sem_make-Shaped (x ∷ nm) count c h = grind (arith, h, sem_alloc-Shaped (x ∷ nm) count c h)

  pub sem_ident-Shaped :
      (e : Env) (nm : List ℕ) (c : Ctl) → Shaped z c → Shaped z (sem_ident e nm c).1
  unfolding sem_ident
  sem_ident-Shaped e nm c h = grind (arith, h, sem_make-Shaped nm e.sem_autocount c h)

  pub request_at-Shaped :
      (s units timeout : ℕ) (c : Ctl) → Shaped z c → Shaped z (request_at s units timeout c).1
  unfolding request_at
  request_at-Shaped s units timeout c h =
      let taken = recount-Shaped s (minus32 (sem_at s c).count (at_least_one units)) c h in
      search (shapes, taken, h)

  pub sem_request-Shaped :
      (id units timeout : ℕ) (c : Ctl) → Shaped z c → Shaped z (sem_request id units timeout c).1
  unfolding sem_request
  sem_request-Shaped id units timeout c h =
      lookup-Shaped z _ _ _ h (λ s. request_at-Shaped s units timeout c h)

  pub sem_release-Shaped :
      (id units : ℕ) (c : Ctl) → Shaped z c → Shaped z (sem_release id units c).1
  unfolding sem_release release_at
  sem_release-Shaped id units c h =
      lookup-Shaped z _ _ _ h
        λ s. recount-Shaped s (plus32 (sem_at s c).count (at_least_one units)) c h

  reg_fill-Shaped :
      (nm : List ℕ) (c : Ctl) (o : Option ℕ) → Shaped z c → Shaped z (reg_fill nm c o).1
  unfolding reg_fill
  reg_fill-Shaped nm c none h = h
  reg_fill-Shaped nm c (some s) h =
      put_region-Shaped z _
        (counters-Shaped z c h c.next_task c.next_sem c.next_q ((c.next_reg + 1) % 2 ^ 32)
          c.orphan_tc)
        s (new_region nm c.next_reg) (omega (arith, length-take region_chars nm))

  pub reg_ident-Shaped : (nm : List ℕ) (c : Ctl) → Shaped z c → Shaped z (reg_ident nm c).1
  unfolding reg_ident reg_ident_at
  reg_ident-Shaped nm c h = grind (arith, h, λ (o : Option ℕ). reg_fill-Shaped nm c o h)
