-- ===== src/Dmathe.antt =====
-- The plane geometry of recomp/dmathe: angles, intervals, segments and arcs. A double is its 64-bit
-- pattern; the arithmetic and the functions of libm are a parameter, in double precision.
pub mod Angles
use tnc640unix.Base.{
  ℕ, ◌+◌, ◌%◌, ◌^◌, Bool, true, false, ◌&&◌, ◌||◌, not, Option, none, some, List, [], ◌∷◌,
  if◌then◌else◌, ◌==◌, ℤ, pos, negsuc, double_leb, double_ltb, Arithmetic, negated,
}

-- The operations on doubles, sqrt, atan, modf as the fraction and the integral part, and the double
-- of an int
pub record Maths : Type 0 where
  pub ops : Arithmetic
  pub sqrt : ℕ → ℕ
  pub atan : ℕ → ℕ
  pub modf : ℕ → ℕ × ℕ
  pub of_int : ℤ → ℕ

-- The constants, and the literals 0.0, 1.0, 0.5 and 0.25
abbrev pub half_pi : ℕ
half_pi = 0x3ff921fb54442d18

abbrev pub pi : ℕ
pi = 0x400921fb54442d18

abbrev pub two_pi : ℕ
two_pi = 0x401921fb54442d18

abbrev pub three_half_pi : ℕ
three_half_pi = 0x4012d97c7f3321d2

abbrev pub snap_eps : ℕ
snap_eps = 0x3e112e0bea99e73f

abbrev pub eps3 : ℕ
eps3 = 0x3f50624dd2f1a9fc

abbrev pub neps3 : ℕ
neps3 = 0xbf50624dd2f1a9fc

abbrev pub eps8 : ℕ
eps8 = 0x3e45798ee2308c3a

abbrev zero_d : ℕ
zero_d = 0

abbrev one_d : ℕ
one_d = 0x3ff0000000000000

abbrev half_d : ℕ
half_d = 0x3fe0000000000000

abbrev quarter_d : ℕ
quarter_d = 0x3fd0000000000000

abbrev pub Point : Type 0
Point = ℕ × ℕ

-- `(x < 0.0) ? -x : x`
abbrev pub abs_of : ℕ → ℕ
abs_of x = if double_ltb x zero_d then negated x else x

abbrev is_one : ℤ → Bool
is_one (pos n) = n == 1
is_one (negsuc n) = false

abbrev is_minus_one : ℤ → Bool
is_minus_one (pos n) = false
is_minus_one (negsuc n) = n == 0

unfoldable pub tausche_d : Point → Point
tausche_d (a, b) = (b, a)

unfoldable pub right_perp_vect : ℕ → ℕ → Point
right_perp_vect x y = (negated x, y)

unfoldable pub left_perp_vect : ℕ → ℕ → Point
left_perp_vect x y = (x, negated y)

unfoldable pub punkt_drehen : Maths → Point → ℕ → ℕ → ℕ → ℕ → Point
punkt_drehen m (x, y) m2 m3 m4 m5 =
    let dx = m.ops.minus x m5 in
    let dy = m.ops.minus y m4 in
    (
      m.ops.plus (m.ops.plus (m.ops.times m2 dx) (m.ops.times m3 dy)) m5,
      m.ops.minus (m.ops.plus (m.ops.times dy m2) m4) (m.ops.times dx m3),
    )

-- `dmathe_roundst`
unfoldable pub roundst : Maths → ℕ → ℤ → ℕ
roundst m x n =
    let scaled = m.ops.times x (m.of_int n) in
    let arg = if double_leb x zero_d then m.ops.minus scaled half_d else m.ops.plus scaled half_d in
    m.ops.over (m.modf arg).1 (m.of_int n)

-- `if (r < 0.0) r = TWO_PI + r;`
abbrev pub lifted : Maths → ℕ → ℕ
lifted m r = if double_ltb r zero_d then m.ops.plus two_pi r else r

-- `if (r < SNAP_EPS || (TWO_PI - r) < SNAP_EPS) r = 0.0;`
abbrev pub snapped : Maths → ℕ → ℕ
snapped m r =
    if double_ltb r snap_eps || double_ltb (m.ops.minus two_pi r) snap_eps then zero_d else r

unfoldable pub norm_winkel : Maths → ℕ → ℕ
norm_winkel m a = snapped m (lifted m (m.ops.times (m.modf (m.ops.over a two_pi)).0 two_pi))

unfoldable pub wirein : Maths → ℕ → ℕ
wirein m a =
    let frac = (m.modf (m.ops.over a two_pi)).0 in
    let up = if double_leb frac (negated half_d) then m.ops.plus frac one_d else frac in
    let down = if double_ltb half_d up then m.ops.minus up one_d else up in m.ops.times down two_pi

-- The direction of (x, y) from its x and y, by the abs_of that the caller tests
abbrev pub direction : Maths → ℕ → ℕ → ℕ
direction m x y =
    if double_ltb (abs_of x) eps3
    then if double_ltb y eps3 then pi else zero_d
    else if double_leb eps3 x
    then m.ops.minus half_pi (m.atan (m.ops.over y x))
    else m.ops.minus three_half_pi (m.atan (m.ops.over y x))

unfoldable pub vector_winkel : Maths → ℕ → ℕ → ℕ
vector_winkel m x y = direction m x y

-- `(a >= b) ? (a - b) : (b - a)`
abbrev pub apart : Maths → ℕ → ℕ → ℕ
apart m a b = if double_leb b a then m.ops.minus a b else m.ops.minus b a

unfoldable pub distance : Maths → Point → Point → ℕ
distance m (x1, y1) (x2, y2) =
    let dx = m.ops.minus x1 x2 in
    let dy = m.ops.minus y1 y2 in
    if double_ltb (apart m y1 y2) eps3 && double_ltb (apart m x1 x2) eps3
    then zero_d
    else m.sqrt (m.ops.plus (m.ops.times dx dx) (m.ops.times dy dy))

-- The negated vector, and the angle
unfoldable pub turn180_degree : Maths → Point → ℕ → Point × ℕ
turn180_degree m (x, y) a =
    let r = m.ops.plus a pi in
    ((negated x, negated y), if double_ltb two_pi r then m.ops.minus r two_pi else r)

unfoldable pub calc_oeff_winkel : Maths → ℕ → ℕ → ℤ → ℕ
calc_oeff_winkel m a b flag =
    if is_one flag
    then (if double_leb eps3 (m.ops.minus a b)
        then m.ops.minus (m.ops.plus b two_pi) a
        else m.ops.minus b a)
    else if double_ltb (m.ops.minus b a) eps3
    then m.ops.minus b a
    else m.ops.minus b (m.ops.plus a two_pi)

-- The roots that are stored, x1 first; the count is their number.
unfoldable pub quad_gl : Maths → ℕ → ℕ → ℕ → List ℕ
quad_gl m a b c =
    let p = m.ops.over b a in
    let disc = m.ops.minus (m.ops.times (m.ops.times p p) quarter_d) (m.ops.over c a) in
    let s = m.sqrt disc in
    let mid = m.ops.times (negated p) half_d in
    if not (double_leb eps3 (abs_of a)) || not (double_leb zero_d disc)
    then []
    else if double_leb eps8 disc
    then m.ops.plus s mid ∷ m.ops.minus mid s ∷ []
    else negated (m.ops.times p half_d) ∷ []

unfoldable pub in_intervall : Maths → ℕ → ℕ → ℕ → Bool
in_intervall m a b c =
    if double_ltb (m.ops.minus c b) eps3
    then double_ltb neps3 (m.ops.minus a c) && double_ltb neps3 (m.ops.minus b a)
    else double_ltb neps3 (m.ops.minus a b) && double_ltb neps3 (m.ops.minus c a)

unfoldable pub wlinks : Maths → ℕ → ℕ → Bool
wlinks m a b =
    if double_ltb (m.ops.minus pi b) eps3
    then (if double_ltb (m.ops.minus (m.ops.minus b pi) a) eps3
        then double_leb eps3 (m.ops.minus a b)
        else true)
    else if double_ltb (m.ops.minus a b) eps3
    then double_leb eps3 (m.ops.minus (m.ops.plus b pi) a)
    else true

unfoldable pub wrechts : Maths → ℕ → ℕ → Bool
wrechts m a b =
    if double_ltb (m.ops.minus pi b) eps3
    then double_leb eps3 (m.ops.minus a (m.ops.minus b pi)) && double_leb eps3 (m.ops.minus b a)
    else double_leb eps3 (m.ops.minus b a) && double_leb eps3 (m.ops.minus a (m.ops.plus b pi))

unfoldable pub antiparallel : Maths → ℕ → ℕ → Bool
unfolding norm_winkel
antiparallel m a b =
    let ad = abs_of (m.ops.minus a (norm_winkel m (m.ops.plus b pi))) in
    if double_ltb ad eps3
    then true
    else if double_leb two_pi ad
    then double_ltb (m.ops.minus ad two_pi) eps3
    else double_ltb (m.ops.minus two_pi ad) eps3

unfoldable pub winkelstrecke : Maths → Point → Point → ℕ
winkelstrecke m (x1, y1) (x2, y2) = direction m (m.ops.minus x2 x1) (m.ops.minus y2 y1)

unfoldable pub sp_greater0 : Maths → ℕ → ℕ → ℕ → ℕ → ℕ → ℕ → Bool
sp_greater0 m a b c d e f =
    let v = m.ops.plus (m.ops.times c a) (m.ops.times d b) in
    let w = m.ops.plus (m.ops.times a e) (m.ops.times b f) in
    double_ltb eps3 (if double_ltb (abs_of v) eps3 then w else v)

-- `if (end < start) end += TWO_PI;` and the test on the arc
abbrev pub on_arc : Maths → ℕ → ℕ → ℕ → Bool
on_arc m start stop p =
    let last = if double_ltb stop start then m.ops.plus stop two_pi else stop in
    let lo = m.ops.minus start eps3 in
    let hi = m.ops.plus last eps3 in
    let q = m.ops.plus p two_pi in
    if double_ltb p lo || double_ltb hi p then double_leb lo q && double_leb q hi else true

unfoldable pub rad_auf_bogen : Maths → ℕ → ℕ → ℤ → ℕ → Bool
rad_auf_bogen m start stop dir p =
    if is_minus_one dir then on_arc m stop start p else on_arc m start stop p

unfoldable pub kreis_tangenten_winkel : Maths → ℤ → Point → Point → ℕ
unfolding norm_winkel winkelstrecke
kreis_tangenten_winkel m flag a b =
    let w = winkelstrecke m a b in
    if is_one flag
    then norm_winkel m (m.ops.plus w half_pi)
    else norm_winkel m (m.ops.minus w half_pi)

unfoldable pub pkt_auf_bogen : Maths → Point → Point → ℕ → ℕ → ℤ → Bool
unfolding winkelstrecke rad_auf_bogen
pkt_auf_bogen m p c start stop dir = rad_auf_bogen m start stop dir (winkelstrecke m c p)

unfoldable pub pkt_auf_strecke : Maths → Point → Point → Point → Bool
unfolding in_intervall
pkt_auf_strecke m (px, py) (ax, ay) (bx, by) =
    let d1 = m.ops.times (m.ops.minus py ay) (m.ops.minus bx ax) in
    let d2 = m.ops.times (m.ops.minus by ay) (m.ops.minus px ax) in
    in_intervall m py ay by
    && (in_intervall m px ax bx
        && double_ltb (if double_ltb d1 d2 then m.ops.minus d2 d1 else m.ops.minus d1 d2) eps8)
