-- ===== src/Rtos/Semaphores/Threads.antt =====
-- Blocking requests and releases of one semaphore as interleaved steps: each load, compare-exchange,
-- FUTEX_WAIT, addition and FUTEX_WAKE of `sem_request` and `sem_release` is one step.
pub mod Wakeup
use tnc640unix.Base.{
  ℕ, suc, ◌+◌, ◌-◌, ◌%◌, ◌^◌, ◌≡◌, ◌≢◌, Bool, true, false, some, List, [], ◌∷◌, map, get_elem?, set,
}
use tnc640unix.Rtos.Semaphores.{enough, minus32, plus32, at_least_one}

-- Where a request stands: before the load, behind it, in FUTEX_WAIT, or answered 0.
pub data Pc : Type 0 where
  ready : Pc
  loaded : ℕ → Pc
  asleep : Pc
  granted : Pc

-- A request of `units` units that waits for ever.
pub record Waiter : Type 0 where
  pub units : ℕ
  pub pc : Pc

-- A step of a request for `u` units on a count of `n`: the count and the place after it. The
-- compare-exchange is a weak one, which may fail on an equal value, and FUTEX_WAIT may return
-- without a wake.
pub data Move (u n : ℕ) : Pc → ℕ → Pc → Type 0 where
  load : Move u n ready n (loaded n)
  cas_win : {c : ℕ} → enough c u ≡ true → n ≡ c → Move u n (loaded c) (minus32 n u) granted
  cas_lose : {c : ℕ} → enough c u ≡ true → Move u n (loaded c) n ready
  sleep : {c : ℕ} → enough c u ≡ false → n ≡ c → Move u n (loaded c) n asleep
  moved_on : {c : ℕ} → enough c u ≡ false → n ≢ c → Move u n (loaded c) n ready
  leave : Move u n asleep n ready

-- `waking` releases stand between their addition and their FUTEX_WAKE.
pub record System : Type 0 where
  pub count : ℕ
  pub waking : ℕ
  pub waiters : List Waiter

-- FUTEX_WAKE of all sleepers
abbrev pub roused : Pc → Pc
roused asleep = ready
roused pc = pc

abbrev pub rouse : Waiter → Waiter
rouse w = record w { pc = roused w.pc }

-- A step, with the units that it releases.
pub data Step (s : System) : ℕ → System → Type 0 where
  pick :
      (i : ℕ) (w : Waiter) {n : ℕ} {pc : Pc}
      → get_elem? s.waiters i ≡ some w
      → Move w.units s.count w.pc n pc
      → Step s 0 (record s { count = n; waiters = set s.waiters i (record w { pc = pc }) })
  add :
      (units : ℕ)
      → Step s
          (at_least_one units)
          (record s { count = plus32 s.count (at_least_one units); waking = s.waking + 1 })
  wake :
      (k : ℕ) → s.waking ≡ suc k → Step s 0 (record s { waking = k; waiters = map rouse s.waiters })

-- The states reached from a count and requests that have not begun, with the units released.
pub data Reach (count : ℕ) (wants : List ℕ) : ℕ → System → Type 0 where
  start : Reach count wants 0 (record {
    count = count;
    waking = 0;
    waiters = map (λ u. record { units = u; pc = ready }) wants;
  })
  later :
      {r n : ℕ} {s t : System} → Reach count wants r s → Step s n t → Reach count wants (r + n) t
