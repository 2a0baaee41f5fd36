-- ===== src/Plcbin/Tokens.antt =====
-- The token tables of libplcbin and the word of the result that each selector writes.
use tnc640unix.Base.{
  ℕ, ◌-◌, ◌/◌, ◌&&◌, Option, none, some, List, [], ◌∷◌, if◌then◌else◌, ◌==◌, ltb, leb, set, get_or,
  codes,
}

-- `TokenList`: a token's name and its selector
abbrev pub token_list : List (List ℕ × ℕ)
token_list =
    (codes "$SizePLCMEM$", 0)
    ∷ (codes "BYTES", 1)
    ∷ (codes "INPUTBYTES", 2)
    ∷ (codes "OUTPUTBYTES", 3)
    ∷ (codes "MARKERS", 4)
    ∷ (codes "INPUTS", 5)
    ∷ (codes "OUTPUTS", 6)
    ∷ (codes "COUNTERS", 7)
    ∷ (codes "TIMERS", 8)
    ∷ (codes "STRINGS", 9)
    ∷ (codes "$OffsetB$", 10)
    ∷ (codes "$OffsetIB$", 11)
    ∷ (codes "$OffsetOB$", 12)
    ∷ (codes "$OffsetM$", 13)
    ∷ (codes "$OffsetI$", 14)
    ∷ (codes "$OffsetO$", 15)
    ∷ (codes "$OffsetC$", 16)
    ∷ (codes "$OffsetT$", 17)
    ∷ (codes "$OffsetS$", 18)
    ∷ (codes "MAXSTRINGLEN", 19)
    ∷ (codes "REMBYTEMIN", 20)
    ∷ (codes "REMBYTEMAX", 21)
    ∷ (codes "REMMARKERMIN", 22)
    ∷ (codes "REMMARKERMAX", 23)
    ∷ (codes "$CRCSum$", 24)
    ∷ (codes "MULERROR", 25)
    ∷ (codes "DIVERROR", 26)
    ∷ (codes "MODERROR", 27)
    ∷ (codes "$STRUCT$", 28)
    ∷ []

-- `SPLCTokenList`
abbrev pub splc_token_list : List (List ℕ × ℕ)
splc_token_list =
    (codes "$SizePLCMEM$", 0)
    ∷ (codes "$CRCSum$", 24)
    ∷ (codes "BYTES", 1)
    ∷ (codes "MARKERS", 4)
    ∷ (codes "INPUTS", 5)
    ∷ (codes "OUTPUTS", 6)
    ∷ (codes "TIMERS", 8)
    ∷ (codes "$OffsetB$", 10)
    ∷ (codes "$OffsetM$", 13)
    ∷ (codes "$OffsetI$", 14)
    ∷ (codes "$OffsetO$", 15)
    ∷ (codes "$OffsetC$", 16)
    ∷ (codes "$OffsetT$", 17)
    ∷ (codes "STOPLCMCOUNT", 33)
    ∷ (codes "STOPLCDCOUNT", 34)
    ∷ (codes "SFROMPLCMCOUNT", 35)
    ∷ (codes "SFROMPLCDCOUNT", 36)
    ∷ []

-- `apply_info`: the word of each selector
abbrev pub info_word : List ℕ
info_word =
    0 ∷ 0xc ∷ 0xd ∷ 0xe ∷ 0xf ∷ 0x10 ∷ 0x11 ∷ 0x12 ∷ 0x13 ∷ 0x14 ∷ 3 ∷ 4 ∷ 5 ∷ 6 ∷ 7 ∷ 8 ∷ 9 ∷ 0xa
    ∷ 0xb ∷ 0x15 ∷ 0x16 ∷ 0x17 ∷ 0x18 ∷ 0x19 ∷ 2 ∷ 0x1b ∷ 0x1a ∷ 0x1c ∷ 0x1d ∷ []

unfoldable pub apply_info : ℕ → ℕ → List ℕ → List ℕ
apply_info sel v info = if ltb sel 29 then set info (get_or info_word sel 0) v else info

-- `apply_splc`: a selector's word, if it has one
abbrev splc_word : ℕ → Option ℕ
splc_word sel =
    if sel == 0
    then some 0
    else if sel == 1
    then some 0xc
    else if sel == 4
    then some 0xd
    else if sel == 5
    then some 0xe
    else if sel == 6
    then some 0xf
    else if sel == 8
    then some 0x10
    else if sel == 10
    then some 3
    else if sel == 13
    then some 4
    else if sel == 14
    then some 5
    else if sel == 15
    then some 6
    else if sel == 17
    then some 7
    else if sel == 24
    then some 2
    else if leb 33 sel && leb sel 36
    then some (sel - 0x10)
    else none

unfoldable pub apply_splc : ℕ → ℕ → List ℕ → List ℕ
apply_splc sel v info = elim (splc_word sel) [
  | none ↦ info
  | some i ↦ set info i (if sel == 1 then v / 4 else v)
]
