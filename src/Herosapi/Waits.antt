-- ===== src/Herosapi/Waits.antt =====
-- `select` and `ppoll`: the cap on a wait that watches a faked device. The milliseconds of a wait
-- are a long of 32 bits, which wraps.
use tnc640unix.Base.{
  ℕ, ◌+◌, ◌*◌, ◌/◌, ◌%◌, ◌<◌, ◌≤◌, ◌≡◌, refl, inl, inr, Bool, true, false, ◌&&◌, ◌||◌, Option, none,
  some, List, [], ◌∷◌, arith, if◌then◌else◌, ltb, ◌==◌, ℤ, pos, Bool-cases, slt32, ◌^◌,
}
use tnc640unix.Herosapi.{
  Time, FdSet, newselect, ppoll_of, Kernel, Settings, Shim, ask, listed, is_fake,
}

-- A time in milliseconds; `one` is a millisecond in the unit of the fraction.
abbrev pub millis : ℕ → Time → ℕ
millis one (sec, frac) = sec * 1000 + frac / one

abbrev pub of_millis : ℕ → ℕ → Time
of_millis one ms = (ms / 1000, ms % 1000 * one)

-- `if(!to || cur>sel_cap_ms)`, where `cur` is a long of 32 bits
unfoldable pub capped : ℕ → ℕ → Option Time → Time
capped one cap none = of_millis one cap
capped one cap (some t) = if slt32 cap (millis one t % 2 ^ 32) then of_millis one cap else t

abbrev pub cap_if : Option ℕ → Bool → ℕ → Option Time → Option Time
unfolding capped
cap_if (some cap) true one to = some (capped one cap to)
cap_if (some cap) false one to = to
cap_if none hit one to = to

-- A faked descriptor below `nfds` is in the set.
abbrev pub in_set : ℕ → FdSet → List ℕ → Bool
in_set nfds r [] = false
in_set nfds r (fd ∷ fds) = ltb fd nfds && r fd || in_set nfds r fds

abbrev pub watches : ℕ → Option FdSet → List ℕ → Bool
watches nfds none fds = false
watches nfds (some r) fds = in_set nfds r fds

-- `select`, with microseconds
unfoldable pub select :
    Settings
    → Kernel
    → ℕ
    → Option FdSet
    → Option FdSet
    → Option FdSet
    → Option Time
    → Shim
    → ℤ × Shim
unfolding capped
select v k nfds r w e to s =
    ask k (newselect nfds r w e (cap_if v.sel_cap_ms (watches nfds r s.fake_fds) 1000 to)) s

abbrev pub polls_fake : Option (List ℤ) → Shim → Bool
unfolding is_fake
polls_fake none s = false
polls_fake (some []) s = false
polls_fake (some (fd ∷ fds)) s = is_fake fd s || polls_fake (some fds) s

-- `ppoll`, with nanoseconds
unfoldable pub ppoll : Settings → Kernel → Option (List ℤ) → Option Time → Shim → ℤ × Shim
unfolding capped is_fake
ppoll v k fds to s = ask k (ppoll_of fds (cap_if v.sel_cap_ms (polls_fake fds s) 1000000 to)) s

in_set-listed :
    (nfds fd : ℕ) (r : FdSet) (fds : List ℕ)
    → fd < nfds
    → r fd ≡ true
    → listed fd fds ≡ true
    → in_set nfds r fds ≡ true
in_set-listed nfds fd r [] lt set h = cc
in_set-listed nfds fd r (x ∷ fds) lt set h = elim (Bool-cases (x == fd)) [
  | inl same ↦ let eq : x ≡ fd = ground arith in rw eq (ground (arith, set, lt))
  | inr other ↦
      let rest = in_set-listed nfds fd r fds lt set (ground (arith, h, other)) in
      ground (arith, rest)
]

-- A time in the unit of its fraction
abbrev pub span : ℕ → Time → ℕ
span one (sec, frac) = sec * (1000 * one) + frac

-- What the kernel is asked to wait is no longer than what the caller asked.
abbrev pub NoLonger : ℕ → Time → Option Time → Type 0
NoLonger one t none = Unit
NoLonger one t (some u) = span one t ≤ span one u

-- The caller's milliseconds do not overflow the long.
abbrev pub Fits : ℕ → Option Time → Type 0
Fits one none = Unit
Fits one (some t) = millis one t < 2 ^ 31

slt32-ltb : (a b : ℕ) → a < 2 ^ 31 → b < 2 ^ 31 → slt32 a (b % 2 ^ 32) ≡ ltb a b
slt32-ltb a b ha hb = ground arith

capped-lem :
    (cap : ℕ) (to : Option Time)
    → cap < 2 ^ 31
    → Fits 1000 to
    → (span 1000 (capped 1000 cap to) < (cap + 1) * 1000) × NoLonger 1000 (capped 1000 cap to) to
unfolding capped
capped-lem cap none small fits = (omega arith, tt)
capped-lem cap (some (sec, frac)) small fits =
    rw (slt32-ltb cap (sec * 1000 + frac / 1000) small fits) (ground arith)

-- With a cap, and where the caller's milliseconds fit a long of 32 bits, a select that waits for
-- reading from a faked descriptor waits for less than a millisecond above the cap, and no longer than
-- its caller asked; nothing else of its request is changed.
pub select_capped :
    (v : Settings) (k : Kernel) (cap nfds fd : ℕ) (r : FdSet) (w e : Option FdSet)
    (to : Option Time) (s : Shim)
    → v.sel_cap_ms ≡ some cap
    → cap < 2 ^ 31
    → Fits 1000 to
    → is_fake (pos fd) s ≡ true
    → fd < nfds
    → r fd ≡ true
    → (t : Time) × (((select v k nfds (some r) w e to s).1.asked
          ≡ newselect nfds (some r) w e (some t) ∷ s.asked)
        × ((span 1000 t < (cap + 1) * 1000) × NoLonger 1000 t to))
unfolding select is_fake
select_capped v k cap nfds fd r w e to s on small fits fake lt set = (
  capped 1000 cap to,
  (rw (on, in_set-listed nfds fd r s.fake_fds lt set fake) refl, capped-lem cap to small fits),
)

-- Where they do not fit, the sum may come out negative, and the wait is handed on uncapped: here of
-- 0x7fffffff seconds under a cap of 50 milliseconds.
pub capped_overflow : capped 1000 50 (some (0x7fffffff, 0)) ≡ (0x7fffffff, 0)
unfolding capped
capped_overflow = refl
