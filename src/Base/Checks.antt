-- ===== src/Base/Checks.antt =====
-- A Boolean test of all the numbers below a bound, which computes.
use Prim.Native.Nat.{ℕ, zero, suc, ◌<◌}
use mathlib.Core.Path.{◌≡◌}
use mathlib.Core.Logic.{inl, inr}
use mathlib.Core.Bool.{Bool, true, ◌&&◌}
use native.Mathlib.Omega.{arith}
use tnc640unix.Base.Tests.{◌==◌, Bool-cases}

abbrev pub all_below : ℕ → (ℕ → Bool) → Bool
all_below zero p = true
all_below (suc n) p = p n && all_below n p

-- What the test says of every number below the bound
pub all_below-lem : (n i : ℕ) (p : ℕ → Bool) → all_below n p ≡ true → i < n → p i ≡ true
all_below-lem zero i p h lt = absurd (omega arith)
all_below-lem (suc n) i p h lt = elim (Bool-cases (i == n)) [
  | inl last ↦ rw (eq last) (first h)
  | inr other ↦ all_below-lem n i p (second h) (ground arith)
]
  where
    eq : (i == n) ≡ true → i ≡ n
    eq e = ground arith

    first : (p n && all_below n p) ≡ true → p n ≡ true
    first e = ground arith

    second : (p n && all_below n p) ≡ true → all_below n p ≡ true
    second e = ground arith
