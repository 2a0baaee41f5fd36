-- ===== src/Bohrcyc.antt =====
-- recomp/bohrcyc, recomp/bohrcyc_fp, recomp/anfahr and recomp/cyckkorr: the leaves of the drilling
-- cycles, of the approach and of the tool correction. A double is its 64-bit pattern; the arithmetic
-- and the functions of libm are parameters.
use tnc640unix.Base.{
  ℕ, ◌+◌, ◌-◌, ◌*◌, ◌/◌, ◌%◌, ◌≡◌, refl, Bool, true, false, ◌&&◌, ◌||◌, if◌then◌else◌, ◌==◌, ltb,
  leb, arith, u32, bit_and, bit_or, ℤ, pos, negsuc, double_leb, double_ltb, fabs, Arithmetic,
  negated,
}
use tnc640unix.Dmathe.{pi, two_pi, Point}

-- `BCYC_Typisiere_Werkzeug`: the type and the subtype of a tool.
unfoldable pub typisiere_werkzeug : ℤ → ℤ × ℕ
typisiere_werkzeug (pos n) = (pos (n / 0x100), n / 0x10 % 0x10)
typisiere_werkzeug (negsuc n) = (negsuc (n / 0x100), 15 - n / 0x10 % 0x10)

-- `BCYC_Angetr_Werkz` on the tool's byte at 0xe0.
unfoldable pub angetr_werkz : ℕ → ℕ
angetr_werkz t =
    let e = u32 (t + 0xffffffff) in
    bit_or (bit_or (bit_and e 0xffffff00) (if leb (bit_and e 0xff) 1 then 1 else 0))
      (if t == 5 then 1 else 0)

-- `BCYC_EntnormiereWinkel`: its answer and the angle.
unfoldable pub entnormiere_winkel : Arithmetic → ℕ → ℕ → ℕ → Bool × ℕ
entnormiere_winkel a v ref range =
    if double_leb (a.plus range pi) (fabs (a.minus v ref))
    then if double_leb v ref then (true, a.plus v two_pi) else (true, a.minus v two_pi)
    else (false, v)

-- sin and cos of libm, for `winkel_gleich`
pub record Trigonometry : Type 0 where
  pub arithmetic : Arithmetic
  pub sin : ℕ → ℕ
  pub cos : ℕ → ℕ

-- `BCYC_WinkelGleich`
unfoldable pub winkel_gleich : Trigonometry → ℕ → ℕ → ℕ → Bool
winkel_gleich t a b tol =
    double_ltb (fabs (t.arithmetic.minus (t.sin a) (t.sin b))) tol
    && double_ltb (fabs (t.arithmetic.minus (t.cos a) (t.cos b))) tol

-- `EckenWinkel`
unfoldable pub ecken_winkel : Arithmetic → ℕ → ℕ → ℤ → ℕ
ecken_winkel a w1 w2 kind = by kind
  where
    diff : ℕ
    diff = fabs (a.minus w1 w2)

    folded_down : ℕ
    folded_down = if double_ltb pi diff then a.minus two_pi diff else diff

    folded_up : ℕ
    folded_up = if double_ltb diff pi then a.minus two_pi diff else diff

    by : ℤ → ℕ
    by (pos n) = if n == 0x20 then pi else if ltb n 0x20 then folded_down else folded_up
    by (negsuc n) = folded_down

abbrev three_d : ℕ
three_d = 0x4008000000000000

abbrev five_d : ℕ
five_d = 0x4014000000000000

-- `anf_min`
unfoldable pub anf_min : ℕ → ℕ → ℕ
anf_min a b = if double_ltb b a then b else a

-- `get_einfahr_radius`
unfoldable pub get_einfahr_radius : Arithmetic → ℕ → ℕ → ℕ → ℕ
get_einfahr_radius a p1 p2 p3 =
    let cp2 = a.times three_d p2 in
    if double_leb p1 p3
    then anf_min five_d cp2
    else if double_ltb p1 (a.plus p3 cp2)
    then anf_min (a.plus p1 p1) cp2
    else p1

-- CK_S180, CK_C90, CK_S270, 1.0 and -1.0
abbrev pub ck_s180 : ℕ
ck_s180 = 0x3ca1a62633145c07

abbrev pub ck_c90 : ℕ
ck_c90 = 0x3c91a62633145c07

abbrev pub ck_s270 : ℕ
ck_s270 = 0xbcaa79394c9e8a0a

abbrev one_d : ℕ
one_d = 0x3ff0000000000000

abbrev minus_one_d : ℕ
minus_one_d = 0xbff0000000000000

-- `s` and `c` of the quadrants 2 to 4 where the flag is not 1, and of all four where it is.
unfoldable pub turn_by : Bool → ℕ → ℕ × ℕ
turn_by flag quad =
    if quad == (if flag then 1 else 3)
    then (ck_s180, minus_one_d)
    else if quad == 4
    then (minus_one_d, ck_s270)
    else if quad == 2
    then (one_d, ck_c90)
    else (0, one_d)

-- `renormiere_punkt`, `flag` its test against 1.
unfoldable pub renormiere_punkt : Arithmetic → Point → ℤ → Bool → Point
renormiere_punkt a p (negsuc n) flag = p
renormiere_punkt a (x, y) (pos quad) flag = placed (turn_by flag quad)
  where
    placed : ℕ × ℕ → Point
    placed (s, c) =
        if quad == 0 || ltb 4 quad
        then (x, y)
        else if flag
        then (negated (a.minus (a.times c x) (a.times s y)), a.plus (a.times s x) (a.times c y))
        else if quad == 1
        then (a.minus x (a.times y 0), a.plus (a.times x 0) y)
        else (a.minus (a.times c x) (a.times s y), a.plus (a.times c y) (a.times s x))

-- `cp`: the bytes of an object, by their offsets.
unfoldable pub cp : (ℕ → ℕ) → (ℕ → ℕ) → ℕ → ℕ → (ℕ → ℕ)
cp dst src off n k = if leb off k && ltb k (off + n) then src k else dst k

-- `ckk_uebertrage_attribute`
unfoldable pub ckk_uebertrage_attribute : (ℕ → ℕ) → (ℕ → ℕ) → (ℕ → ℕ)
ckk_uebertrage_attribute src dst =
    let d1 = cp dst src 0x64 8 in
    let d2 = cp d1 src 0x6c 1 in
    let d3 = cp d2 src 0x6d 1 in
    let d4 = cp d3 src 0x70 8 in
    let d5 = cp d4 src 0x78 4 in
    let d6 = cp d5 src 0x7c 1 in let d7 = cp d6 src 0x84 4 in cp d7 src 0x88 8

-- The type and the subtype of a tool make up its number without the lowest four bits.
pub typisiere_werkzeug-number :
    (n : ℕ)
    → (n / 0x100 * 0x10 + (typisiere_werkzeug (pos n)).1 ≡ n / 0x10)
      × ((typisiere_werkzeug (pos n)).0 ≡ pos (n / 0x100))
unfolding typisiere_werkzeug
typisiere_werkzeug-number n = (omega arith, refl)

-- The bytes 1, 2 and 5 are those of a driven tool.
pub angetr_werkz_driven : angetr_werkz 1 + angetr_werkz 2 + angetr_werkz 5 ≡ 3
unfolding angetr_werkz
angetr_werkz_driven = refl

-- The byte 0 leaks the upper bits of its predecessor.
pub angetr_werkz_leaks : angetr_werkz 0 ≡ 0xffffff00
unfolding angetr_werkz
angetr_werkz_leaks = refl
