-- ===== src/Plc/Cond.antt =====
-- libplccond: ASCII case folding, the null operand, and the operand stack in a flat buffer. An
-- `int` is its 32-bit pattern; a string is the list of its bytes before the NUL.
pub mod Laws
use tnc640unix.Base.{
  ℕ, ◌+◌, ◌-◌, ◌%◌, ◌^◌, Bool, true, false, ◌||◌, Option, none, some, List, [], ◌∷◌, if◌then◌else◌,
  ◌==◌, ltb, get_or, set, slt32,
}

-- `toupper_ASCII`: the test reads the low byte, the subtraction is on the whole int.
unfoldable pub toupper_ascii : ℕ → ℕ
toupper_ascii c = if ltb ((c % 256 + 0x9f) % 256) 0x1a then (c + 2 ^ 32 - 0x20) % 2 ^ 32 else c

unfoldable pub tolower_ascii : ℕ → ℕ
tolower_ascii c = if ltb ((c % 256 + 0xbf) % 256) 0x1a then (c + 0x20) % 2 ^ 32 else c

-- `IsPathSep`
unfoldable pub is_path_sep : ℕ → Bool
is_path_sep c = c == b'\\' || c == b'/'

-- `isNull`
unfoldable pub is_null : List ℕ → Bool
is_null [] = true
is_null (c ∷ s) = if c == b'0' then is_null s else false

-- The caller's buffer: `top` as a 32-bit pattern and the uint16 elements. A read out of the
-- elements' bounds is left to the caller's invariant.
pub record Stack : Type 0 where
  pub top : ℕ
  pub data_ : List ℕ

-- `top < 0`
abbrev pub is_negative : ℕ → Bool
is_negative w = slt32 w 0

-- `IsStackEmpty`; `none` is a null pointer.
unfoldable pub is_stack_empty : Option Stack → Bool
is_stack_empty none = true
is_stack_empty (some p) = is_negative p.top

-- `PeekStack`
unfoldable pub peek_stack : Stack → ℕ
peek_stack p = if is_negative p.top then 1 else get_or p.data_ p.top 0

-- `PushStack`
unfoldable pub push_stack : ℕ → Stack → Bool × Stack
push_stack v p =
    if slt32 p.top 0x200
    then (true, record { top = (p.top + 1) % 2 ^ 32; data_ = set p.data_ ((p.top + 1) % 2 ^ 32) v })
    else (false, p)

-- `PopStack`
unfoldable pub pop_stack : Stack → ℕ × Stack
pop_stack p =
    if is_negative p.top
    then (0, p)
    else (get_or p.data_ p.top 0, record { top = (p.top + 2 ^ 32 - 1) % 2 ^ 32; data_ = p.data_ })
