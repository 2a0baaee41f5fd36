-- ===== src/Plcbin/Info.antt =====
-- The token section in libplcbin: parse_tokens, PLCBin_ReadInfo and PLCBin_ReadSPLCInfo.
use tnc640unix.Base.{
  ℕ, zero, suc, ◌+◌, ◌-◌, ◌*◌, ◌/◌, ◌%◌, ◌^◌, Bool, true, false, Option, none, some, List, [], ◌∷◌,
  if◌then◌else◌, ◌==◌, ltb, set, get_or, replicate, bytes_eq, ℤ, pos, negsuc,
}
use tnc640unix.Plcbin.Files.{File, fread, fseek, getlong, getword}
use tnc640unix.Plcbin.Tokens.{token_list, splc_token_list, apply_info, apply_splc}
use tnc640unix.Plcbin.Code.{Handle, two_longs, read_bin_code_info}

-- The selector of a token
abbrev pub selector : List (List ℕ × ℕ) → List ℕ → Option ℕ
selector [] name = none
selector ((t, sel) ∷ toks) name = if bytes_eq t name then some sel else selector toks name

abbrev c_string : List ℕ → List ℕ
c_string [] = []
c_string (x ∷ s) = if x == 0 then [] else x ∷ c_string s

-- One entry of the table: its name, a zero word and its value
unfoldable pub read_entry : File → Option (List ℕ × ℕ × File)
unfolding fread getword getlong
read_entry f =
    let (got, g) = fread 0x10 f in
    elim got [
      | none ↦ none
      | some name ↦ elim (getword g) [
        | none ↦ none
        | some (z, k) ↦
            if z == 0
            then (elim (getlong k) [ none ↦ none | some (v, l) ↦ some (c_string name, v, l) ])
            else none
      ]
    ]

abbrev applied : (ℕ → ℕ → List ℕ → List ℕ) → Option ℕ → ℕ → List ℕ → List ℕ
applied apply none v info = info
applied apply (some sel) v info = apply sel v info

-- `n` turns of the loop of `parse_tokens`
unfoldable pub read_entries :
    List (List ℕ × ℕ) → (ℕ → ℕ → List ℕ → List ℕ) → ℕ → File → List ℕ → Bool × List ℕ × File
unfolding read_entry
read_entries toks apply zero f info = (true, info, f)
read_entries toks apply (suc n) f info = elim (read_entry f) [
  | none ↦ (false, info, f)
  | some (name, v, g) ↦ read_entries toks apply n g (applied apply (selector toks name) v info)
]

-- The turns of `for (pos = 0; pos < (int)tbl_len; pos += 0x16)`
abbrev entry_count : ℕ → ℕ
entry_count tbl_len = if ltb tbl_len (2 ^ 31) then (tbl_len + 0x15) / 0x16 else 0

-- The token section of a handle whose bincode section is known: the answer, the words, the file
unfoldable pub read_section :
    List (List ℕ × ℕ) → (ℕ → ℕ → List ℕ → List ℕ) → File → List ℕ → ℤ × List ℕ × File
unfolding fseek getlong read_entries
read_section toks apply f info = elim (fseek 0x48 f) [
  | none ↦ (negsuc 2, info, f)
  | some g ↦ elim (two_longs g) [
    | none ↦ (negsuc 2, info, g)
    | some (tbl_off, tbl_len, k) ↦ elim (fseek tbl_off k) [
      | none ↦ (negsuc 2, info, k)
      | some l ↦
          let (fine, out, m) = read_entries toks apply (entry_count tbl_len) l info in
          (if fine then pos 0 else negsuc 2, out, m)
    ]
  ]
]

-- `parse_tokens`
unfoldable pub parse_tokens :
    List (List ℕ × ℕ) → (ℕ → ℕ → List ℕ → List ℕ) → Handle → List ℕ → ℤ × List ℕ × Handle
unfolding read_bin_code_info read_section
parse_tokens toks apply h info =
    let (rc, g) = read_bin_code_info h in
    elim rc [
      | negsuc n ↦ (negsuc n, info, g)
      | pos n ↦
          let (answer, out, f) = read_section toks apply g.file (set info 1 g.bin_size) in
          (answer, out, record g { file = f })
    ]

-- `PLCBin_ReadInfo` of a handle that is not null: the answer and the 30 words
unfoldable pub plcbin_read_info : Handle → ℤ × List ℕ × Handle
unfolding parse_tokens apply_info
plcbin_read_info h = parse_tokens token_list apply_info h (replicate 30 0)

abbrev minus : ℕ → ℕ → ℕ
minus a b = (a + 2 ^ 32 - b % 2 ^ 32) % 2 ^ 32

-- The four words that `PLCBin_ReadSPLCInfo` computes at its end
unfoldable pub splc_limits : List ℕ → List ℕ
splc_limits p =
    let u = minus ((get_or p 3 0 + get_or p 0xc 0 * 4) % 2 ^ 32) (get_or p 0x14 0 * 4) in
    let v = minus ((get_or p 0xd 0 + get_or p 4 0) % 2 ^ 32) (get_or p 0x13 0) in
    set (set (set (set p 0xb u) 9 (minus u (get_or p 0x12 0 * 4))) 10 v) 8
      (minus v (get_or p 0x11 0))

-- `PLCBin_ReadSPLCInfo` of a handle that is not null: the answer and the 21 words
unfoldable pub plcbin_read_splc_info : Handle → ℤ × List ℕ × Handle
unfolding parse_tokens apply_splc splc_limits
plcbin_read_splc_info h =
    let (rc, info, g) = parse_tokens splc_token_list apply_splc h (replicate 21 0) in
    elim rc [ negsuc n ↦ (negsuc n, info, g) | pos n ↦ (pos 0, splc_limits info, g) ]
