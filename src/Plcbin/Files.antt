-- ===== src/Plcbin/Files.antt =====
-- A file of a PLC binary module, as libplcbin reads it: fread, fseek, getlong and getword.
use tnc640unix.Base.{
  ℕ, ◌+◌, ◌*◌, ◌^◌, Option, none, some, List, [], ◌∷◌, if◌then◌else◌, ltb, leb, length, take, drop,
}

pub record File : Type 0 where
  pub bytes : List ℕ
  pub at : ℕ

-- `fread(p, k, 1, f)`: all `k` bytes or none that counts. Below, a reader that gives up keeps an
-- earlier position; each operation seeks before it reads.
unfoldable pub fread : ℕ → File → Option (List ℕ) × File
fread k f =
    if leb (f.at + k) (length f.bytes)
    then (some (take k (drop f.at f.bytes)), record f { at = f.at + k })
    else (none, record f { at = if ltb f.at (length f.bytes) then length f.bytes else f.at })

-- `fseek(f, off, SEEK_SET)` to the 64-bit pattern of a long: it fails where that is negative.
unfoldable pub fseek : ℕ → File → Option File
fseek off f = if ltb off (2 ^ 63) then some (record f { at = off }) else none

-- The number that the bytes are, the first one the highest
abbrev pub big_endian : ℕ → List ℕ → ℕ
big_endian acc [] = acc
big_endian acc (x ∷ xs) = big_endian (acc * 256 + x) xs

abbrev number : Option (List ℕ) × File → Option (ℕ × File)
number (none, f) = none
number (some s, f) = some (big_endian 0 s, f)

-- `getlong` and `getword`
unfoldable pub getlong : File → Option (ℕ × File)
unfolding fread
getlong f = number (fread 4 f)

unfoldable pub getword : File → Option (ℕ × File)
unfolding fread
getword f = number (fread 2 f)
