-- ===== src/Plcbin/Code.antt =====
-- The handle of libplcbin: PLCBin_Open, ReadBinCodeInfo and PLCBin_ReadBinCode.
use tnc640unix.Base.{
  ℕ, ◌+◌, ◌-◌, ◌%◌, ◌^◌, Bool, Option, none, some, List, [], if◌then◌else◌, ◌==◌, ltb, length, take,
  drop, bytes_eq, codes, ℤ, pos, negsuc,
}
use tnc640unix.Plcbin.Files.{File, fread, fseek, getlong}

pub record Handle : Type 0 where
  pub file : File
  pub version : ℕ
  pub bin_off : ℕ
  pub bin_size : ℕ
  pub bin_pos : ℕ

-- `MAGIC_V2` and `MAGIC_V1`
abbrev pub magic_v2 : List ℕ
magic_v2 = codes "BIN PLC binary module  Version 2.0      "

abbrev pub magic_v1 : List ℕ
magic_v1 = codes "BIN PLC binary module  Version 1.0      "

abbrev opened : File → ℕ → Handle
opened f v = record { file = f; version = v; bin_off = 0; bin_size = 0; bin_pos = 0 }

abbrev checked : Option (List ℕ) × File → Option Handle
checked (none, f) = none
checked (some hdr, f) =
    if bytes_eq hdr magic_v2
    then some (opened f 200)
    else if bytes_eq hdr magic_v1
    then some (opened f 100)
    else none

-- `PLCBin_Open` on the bytes of a file, `none` where fopen fails: the handle, or none with the
-- error
unfoldable pub plcbin_open : Option (List ℕ) → ℕ × Option Handle
unfolding fread
plcbin_open none = (2, none)
plcbin_open (some bytes) = elim (checked (fread 0x28 (record { bytes = bytes; at = 0 }))) [
  | none ↦ (3, none)
  | some h ↦ (0, some h)
]

-- Two longs, one behind the other
abbrev pub two_longs : File → Option (ℕ × ℕ × File)
unfolding getlong
two_longs f = elim (getlong f) [
  | none ↦ none
  | some (a, g) ↦ elim (getlong g) [ none ↦ none | some (b, k) ↦ some (a, b, k) ]
]

-- `ReadBinCodeInfo`
unfoldable pub read_bin_code_info : Handle → ℤ × Handle
unfolding getlong fseek
read_bin_code_info h =
    if h.bin_off == 0
    then (elim (fseek 0x28 h.file) [
      | none ↦ (negsuc 0, h)
      | some f ↦ elim (two_longs f) [
        | none ↦ (negsuc 1, h)
        | some (a, b, g) ↦ (pos 0, record h { file = g; bin_off = a; bin_size = b })
      ]
    ])
    else (pos 0, h)

-- The 64-bit pattern of an int32_t, and the test `(long)n < d`
abbrev pub long_of : ℕ → ℕ
long_of d = if ltb d (2 ^ 31) then d else d + (2 ^ 64 - 2 ^ 32)

abbrev pub long_lt : ℕ → ℕ → Bool
long_lt a b = ltb ((a + 2 ^ 63) % 2 ^ 64) ((b + 2 ^ 63) % 2 ^ 64)

-- `fread(buf, 1, want, f)`: the bytes that are left, `want` at most
unfoldable pub fread_bytes : ℕ → File → List ℕ × File
fread_bytes want f =
    let got = take want (drop f.at f.bytes) in (got, record f { at = f.at + length got })

-- `want`
unfoldable pub wanted_bytes : ℕ → Handle → ℕ
wanted_bytes n h =
    let rest = long_of ((h.bin_size + 2 ^ 32 - h.bin_pos) % 2 ^ 32) in
    if long_lt n rest then n else rest

abbrev pub read_want : ℕ → Handle → ℕ × List ℕ × Handle
read_want want h =
    let (got, f) = fread_bytes want h.file in
    if want == 0
    then (0, [], record h { bin_off = 0; bin_size = 0; bin_pos = 0 })
    else (length got, got, record h { file = f; bin_pos = (h.bin_pos + want) % 2 ^ 32 })

-- `PLCBin_ReadBinCode` behind the seek: the answer, the bytes stored and the handle
unfoldable pub read_more : ℕ → Handle → ℕ × List ℕ × Handle
unfolding wanted_bytes
read_more n h = read_want (wanted_bytes n h) h

abbrev pub seeked : ℕ → Handle → Option File → ℕ × List ℕ × Handle
seeked n g none = (2 ^ 64 - 3, [], g)
seeked n g (some f) = read_more n (record g { file = f })

abbrev pub with_info : ℕ → ℤ × Handle → ℕ × List ℕ × Handle
with_info n (negsuc k, g) = (2 ^ 64 - 1 - k, [], g)
with_info n (pos k, g) =
    if g.bin_pos == 0 then seeked n g (fseek (long_of g.bin_off) g.file) else read_more n g

-- `PLCBin_ReadBinCode` of a handle that is not null, `n` the 64-bit pattern of its size_t
unfoldable pub plcbin_read_bin_code : ℕ → Handle → ℕ × List ℕ × Handle
unfolding read_bin_code_info fseek read_more
plcbin_read_bin_code n h = with_info n (read_bin_code_info h)
