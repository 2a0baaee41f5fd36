-- ===== src/Rtos/Names.antt =====
-- Names of tasks, processes, semaphores and queues: C strings as the lists of their bytes up to
-- the NUL, held in arrays of NAMELEN bytes.
use tnc640unix.Base.{
  ℕ, Bool, true, false, ◌&&◌, ◌||◌, Option, none, some, List, [], ◌∷◌, if◌then◌else◌, ◌==◌, leb,
  take, drop, bytes_eq, codes,
}
use mathlib.Core.Option

-- NAMELEN - 1: the characters that a name array holds before its NUL.
abbrev pub name_chars : ℕ
name_chars = 31

-- `!strncmp(a, b, NAMELEN-1)`
abbrev pub name_eq : List ℕ → List ℕ → Bool
name_eq a b = bytes_eq (take name_chars a) (take name_chars b)

-- `strncpy(dst, s, NAMELEN-1)` into an array whose last byte is 0
abbrev pub stored : List ℕ → List ℕ
stored s = take name_chars s

-- What follows the first `c` (`strchr(s, c) + 1`).
unfoldable pub after_first : ℕ → List ℕ → Option (List ℕ)
after_first c [] = none
after_first c (x ∷ xs) = if x == c then some xs else after_first c xs

-- What stands before and after the last `c` (`strrchr(s, c)`).
unfoldable pub split_last : ℕ → List ℕ → Option (List ℕ × List ℕ)
split_last c [] = none
split_last c (x ∷ xs) = elim (split_last c xs) [
  | some (before, after) ↦ some (x ∷ before, after)
  | none ↦ if x == c then some ([], xs) else none
]

-- `strstr(s, t) != 0`
unfoldable pub starts : List ℕ → List ℕ → Bool
starts [] s = true
starts (y ∷ t) [] = false
starts (y ∷ t) (x ∷ s) = y == x && starts t s

unfoldable pub occurs : List ℕ → List ℕ → Bool
occurs t [] = starts t []
occurs t (x ∷ s) = starts t (x ∷ s) || occurs t s

-- `canon_pname`; `none` is a null source.
unfoldable pub canon_pname : Option (List ℕ) → List ℕ
unfolding after_first
canon_pname none = []
canon_pname (some src) = stored (Option.get_or (after_first b':' src) src)

-- `q_basename`; `none` is a null name.
unfoldable pub q_basename : Option (List ℕ) → List ℕ
unfolding split_last
q_basename none = []
q_basename (some nm) = elim (split_last b'.' (stored nm)) [
  | some (before, _) ↦ before
  | none ↦ stored nm
]

abbrev is_empty : List ℕ → Bool
is_empty [] = true
is_empty (x ∷ xs) = false

unfoldable pub is_hex : ℕ → Bool
is_hex c = (leb b'0' c && leb c b'9') || (leb b'a' c && leb c b'f') || (leb b'A' c && leb c b'F')

-- The rest of a string behind its leading hex digits, with whether there was one.
unfoldable pub skip_hex : List ℕ → Bool × List ℕ
unfolding is_hex
skip_hex [] = (false, [])
skip_hex (c ∷ s) = if is_hex c then (true, (skip_hex s).1) else (false, c ∷ s)

-- N<hex digits>, to the end
ends_in_counter : List ℕ → Bool
unfolding skip_hex
ends_in_counter [] = false
ends_in_counter (c ∷ t) = c == b'N' && ((skip_hex t).0 && is_empty (skip_hex t).1)

-- PLC<hex digits>N<hex digits>
is_plc_probe : List ℕ → Bool
unfolding skip_hex ends_in_counter
is_plc_probe s = (skip_hex s).0 && ends_in_counter (skip_hex s).1

-- "QueueHeLogger"
abbrev pub helogger : List ℕ
helogger = codes "QueueHeLogger"

-- `q_is_probe_name`: the names that must not be created on demand
unfoldable pub q_is_probe_name : List ℕ → Bool
unfolding starts is_plc_probe
q_is_probe_name base =
    bytes_eq base helogger
    || starts (codes "HwsM") base
    || (starts (codes "PLC") base && is_plc_probe (drop 3 base))
