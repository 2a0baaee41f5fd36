-- ===== src/Base/Words.antt =====
-- Little-endian 32-bit words in byte strings: `m[o]|(m[o+1]<<8)|(m[o+2]<<16)|(m[o+3]<<24)` and `put32`.
use Prim.Native.Nat.{ℕ, zero, suc, ◌+◌, ◌*◌, ◌/◌, ◌%◌, ◌^◌, ◌<◌, ◌≤◌}
use mathlib.Core.Path.{◌≡◌, refl, ap}
use mathlib.Core.List.{List, [], ◌∷◌, ◌++◌}
use native.Mathlib.Omega.{arith}
use tnc640unix.Base.Lists.{length, drop}

-- The word that a byte string starts with; a byte that is not there counts as 0.
abbrev pub word_of : List ℕ → ℕ
word_of (a ∷ b ∷ c ∷ d ∷ s) = a + 0x100 * b + 0x10000 * c + 0x1000000 * d
word_of _ = 0

abbrev pub get32 : List ℕ → ℕ → ℕ
get32 m o = word_of (drop o m)

abbrev pub byte_of : ℕ → ℕ → ℕ
byte_of v k = v / 2 ^ (8 * k) % 256

abbrev pub bytes32 : ℕ → List ℕ
bytes32 v = v % 256 ∷ v / 0x100 % 256 ∷ v / 0x10000 % 256 ∷ v / 0x1000000 % 256 ∷ []

-- `put32(m + o, v)`, where the four bytes are there
abbrev pub put32 : List ℕ → ℕ → ℕ → List ℕ
put32 (a ∷ b ∷ c ∷ d ∷ s) zero v = bytes32 v ++ s
put32 m zero v = m
put32 [] (suc o) v = []
put32 (x ∷ m) (suc o) v = x ∷ put32 m o v

pub word_of-bytes32 : (v : ℕ) (s : List ℕ) → v < 2 ^ 32 → word_of (bytes32 v ++ s) ≡ v
word_of-bytes32 v s h = omega arith

pub get32-put32 : (m : List ℕ) (o v : ℕ) → o + 4 ≤ length m → v < 2 ^ 32 → get32 (put32 m o v) o ≡ v
get32-put32 (a ∷ b ∷ c ∷ d ∷ s) zero v le h = word_of-bytes32 v s h
get32-put32 (a ∷ b ∷ c ∷ []) zero v le h = absurd (omega arith)
get32-put32 (a ∷ b ∷ []) zero v le h = absurd (omega arith)
get32-put32 (a ∷ []) zero v le h = absurd (omega arith)
get32-put32 [] zero v le h = absurd (omega arith)
get32-put32 [] (suc o) v le h = absurd (omega arith)
get32-put32 (x ∷ m) (suc o) v le h = get32-put32 m o v (omega arith) h

pub length-put32 : (m : List ℕ) (o v : ℕ) → length (put32 m o v) ≡ length m
length-put32 (a ∷ b ∷ c ∷ d ∷ s) zero v = refl
length-put32 (a ∷ b ∷ c ∷ []) zero v = refl
length-put32 (a ∷ b ∷ []) zero v = refl
length-put32 (a ∷ []) zero v = refl
length-put32 [] zero v = refl
length-put32 [] (suc o) v = refl
length-put32 (x ∷ m) (suc o) v = ap suc (length-put32 m o v)
