-- ===== src/Plcbin/Calls.antt =====
-- One call of PLCBin_ReadBinCode in a client's loop: from the place of the section in the file on.
use tnc640unix.Base.{
  ℕ, ◌+◌, ◌-◌, ◌%◌, ◌^◌, ◌≤◌, ◌<◌, ◌≡◌, ◌≢◌, refl, sym, ap, ◌∙◌, true, false, List, [], ◌++◌, arith,
  ◌==◌, ltb, min, length, length-take, length-drop, take_split, drop-drop, take, drop, pos,
}
use tnc640unix.Plcbin.Files.{fseek}
use tnc640unix.Plcbin.Code.{
  Handle, wanted_bytes, read_want, read_bin_code_info, long_of, long_lt, fread_bytes, read_more,
  plcbin_read_bin_code, with_info,
}

-- A handle at `p` of a code section that lies in the file and is shorter than 2^31
pub record At (p : ℕ) (h : Handle) : Type 0 where
  pub known : h.bin_off ≢ 0
  pub near : h.bin_off < 2 ^ 31
  pub small : h.bin_size < 2 ^ 31
  pub here : h.bin_pos ≡ p
  pub within : p ≤ h.bin_size
  pub stands : h.file.at ≡ h.bin_off + p
  pub whole : h.bin_off + h.bin_size ≤ length h.file.bytes

-- What is left of the section
abbrev pub rest : ℕ → Handle → List ℕ
rest p h = take (h.bin_size - p) (drop (h.bin_off + p) h.file.bytes)

long_of-diff : (a b : ℕ) → a < 2 ^ 31 → b ≤ a → long_of ((a + 2 ^ 32 - b) % 2 ^ 32) ≡ a - b
long_of-diff a b ha hb = ground arith

long_lt-ltb : (a b : ℕ) → a < 2 ^ 63 → b < 2 ^ 63 → long_lt a b ≡ ltb a b
long_lt-ltb a b ha hb = ground arith

abbrev pub advanced : ℕ → Handle → Handle
advanced w h = record h { file = record h.file { at = h.file.at + w }; bin_pos = h.bin_pos + w }

-- What a call asks for: as much as the buffer holds, or what is left.
want_lem : (n p : ℕ) (h : Handle) → At p h → n < 2 ^ 63 → wanted_bytes n h ≡ min n (h.bin_size - p)
unfolding wanted_bytes
want_lem n p h a fits =
    let left : long_of ((h.bin_size + 2 ^ 32 - h.bin_pos) % 2 ^ 32) ≡ h.bin_size - p =
      rw a.here (long_of-diff h.bin_size p a.small a.within) in
    rw (left, long_lt-ltb n (h.bin_size - p) fits (omega (arith, a.small))) (ground arith)

length-got :
    (w p : ℕ) (h : Handle)
    → At p h
    → w ≤ h.bin_size - p
    → length (take w (drop h.file.at h.file.bytes)) ≡ w
length-got w p h a le =
    length-take w (drop h.file.at h.file.bytes)
    ∙ omega (arith, length-drop h.file.at h.file.bytes, a.stands, a.whole, a.within, le)

-- A call in the middle of the section
pub chunk :
    (n p w : ℕ) (h : Handle)
    → At p h
    → n < 2 ^ 63
    → w ≡ min n (h.bin_size - p)
    → 0 < w
    → read_more n h ≡ (w, take w (drop (h.bin_off + p) h.file.bytes), advanced w h)
unfolding read_more fread_bytes
chunk n p w h a fits e some_left =
    let want : wanted_bytes n h ≡ w = want_lem n p h a fits ∙ sym e in
    let nonzero : (w == 0) ≡ false = ground arith in
    let got = length-got w p h a (omega arith) in
    let low : (h.bin_pos + w) % 2 ^ 32 ≡ h.bin_pos + w = omega (arith, a.here, a.small, a.within) in
    ap (λ v. read_want v h) want ∙ rw nonzero (rw (got, low, a.stands) refl)

pub finish :
    (n p : ℕ) (h : Handle)
    → At p h
    → n < 2 ^ 63
    → p ≡ h.bin_size
    → read_more n h ≡ (0, [], record h { bin_off = 0; bin_size = 0; bin_pos = 0 })
unfolding read_more
finish n p h a fits e =
    let want : wanted_bytes n h ≡ 0 = want_lem n p h a fits ∙ omega (arith, e) in
    ap (λ v. read_want v h) want

info_known : (p : ℕ) (h : Handle) → At p h → read_bin_code_info h ≡ (pos 0, h)
unfolding read_bin_code_info
info_known p h a = let known : (h.bin_off == 0) ≡ false = ground (arith, a.known) in rw known refl

-- A call in the middle neither reads the section's place again nor seeks.
pub mid_call : (n p : ℕ) (h : Handle) → At p h → p ≢ 0 → plcbin_read_bin_code n h ≡ read_more n h
unfolding plcbin_read_bin_code
mid_call n p h a ne =
    let moved : (h.bin_pos == 0) ≡ false = ground (arith, a.here, ne) in
    ap (with_info n) (info_known p h a) ∙ rw moved refl

abbrev pub sought : Handle → Handle
sought h = record h { file = record h.file { at = h.bin_off } }

-- The first call seeks.
pub first_call :
    (n : ℕ) (h g : Handle)
    → read_bin_code_info h ≡ (pos 0, g)
    → At 0 (sought g)
    → plcbin_read_bin_code n h ≡ read_more n (sought g)
unfolding plcbin_read_bin_code fseek
first_call n h g info a =
    let fresh : (g.bin_pos == 0) ≡ true = ground (arith, a.here) in
    let low : long_of g.bin_off ≡ g.bin_off = ground (arith, a.near) in
    let seeks : ltb g.bin_off (2 ^ 63) ≡ true = ground (arith, a.near) in
    ap (with_info n) info ∙ rw fresh (rw low (rw seeks refl))

-- The part that a call reads, and the part behind it
pub rest_split :
    (p w : ℕ) (h : Handle)
    → w ≤ h.bin_size - p
    → take w (drop (h.bin_off + p) h.file.bytes) ++ rest (p + w) h ≡ rest p h
rest_split p w h le =
    let from = drop (h.bin_off + p) h.file.bytes in
    let behind : drop (h.bin_off + (p + w)) h.file.bytes ≡ drop w from =
      ap (λ k. drop k h.file.bytes) (omega arith)
      ∙ sym (drop-drop (h.bin_off + p) w h.file.bytes) in
    let left : w + (h.bin_size - (p + w)) ≡ h.bin_size - p = omega (arith, le) in
    ap (λ l. take w from ++ take (h.bin_size - (p + w)) l) behind
    ∙ take_split w (h.bin_size - (p + w)) from
    ∙ ap (λ k. take k from) left

pub advanced-At : (p w : ℕ) (h : Handle) → At p h → w ≤ h.bin_size - p → At (p + w) (advanced w h)
advanced-At p w h a le = record {
  known = a.known;
  near = a.near;
  small = a.small;
  here = ap (λ k. k + w) a.here;
  within = omega (arith, a.within);
  stands = omega (arith, a.stands);
  whole = a.whole;
}
