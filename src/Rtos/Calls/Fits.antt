-- ===== src/Rtos/Calls/Fits.antt =====
-- The calls that write into a caller's buffer stay inside it.
use tnc640unix.Base.{
  ℕ, ◌+◌, ◌-◌, ◌≤◌, Option, none, some, List, [], ◌∷◌, ◌++◌, arith, length, take, length-append,
  length-take,
}
use tnc640unix.Rtos.State.{Ctl, Caller, Env}
use tnc640unix.Rtos.Calls.{t_name, p_name, env_get}

closed : (n : ℕ) (xs : List ℕ) → length (take n xs ++ (0 ∷ [])) ≤ n + 1
closed n xs = omega (arith, length-append (take n xs) (0 ∷ []), length-take n xs)

length-env_get : (v : Option (List ℕ)) (size : ℕ) → length (env_get v size) ≤ size
unfolding env_get
length-env_get none size = ground arith
length-env_get (some v) size = ground (arith, closed (size - 1) v, length-append v (0 ∷ []))

-- T_name stores at most NAMELEN = 32 bytes, P_name at most 29, and Sys_getenv at most the size that
-- it is given, for every task argument, segment and value.
pub stores_fit :
    (e : Env) (w : Caller) (tid size : ℕ) (v : Option (List ℕ)) (c : Ctl)
    → (length (t_name e w tid c).0 ≤ 32)
      × (length (p_name w tid c) ≤ 29)
      × (length (env_get v size) ≤ size)
unfolding t_name p_name
stores_fit e w tid size v c = (closed 31 _, closed 28 _, length-env_get v size)
