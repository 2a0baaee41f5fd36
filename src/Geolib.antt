-- ===== src/Geolib.antt =====
-- The geometry of recomp/geolib: distances, angles, and when two elements of a contour are the same.
-- A double is its 64-bit pattern; the arithmetic and the functions of libm are a parameter.
pub mod Elements
pub mod Unwrap
pub mod Tests
use tnc640unix.Base.{
  ℕ, zero, suc, ◌+◌, ◌*◌, Bool, true, false, ◌&&◌, ◌||◌, not, Option, none, some, List, [], ◌∷◌,
  if◌then◌else◌, ◌==◌, bit_and, double_leb, double_ltb, fabs, Arithmetic,
}

-- The operations on doubles and the functions of libm, modf as the fraction alone
pub record Libm : Type 0 where
  pub ops : Arithmetic
  pub sqrt : ℕ → ℕ
  pub sin : ℕ → ℕ
  pub cos : ℕ → ℕ
  pub fraction : ℕ → ℕ

-- GEO_TWO_PI, GEO_PI_2, GEO_EPS and the literals 0.5 and 1.0
abbrev pub geo_two_pi : ℕ
geo_two_pi = 0x401921fb54442d18

abbrev pub geo_pi_2 : ℕ
geo_pi_2 = 0x3ff921fb54442d18

abbrev pub geo_eps : ℕ
geo_eps = 0x3f00000000000000

abbrev half_d : ℕ
half_d = 0x3fe0000000000000

abbrev one_d : ℕ
one_d = 0x3ff0000000000000

abbrev pub Place : Type 0
Place = ℕ × ℕ

-- The fields that the G_ macros read
pub record Element : Type 0 where
  pub start : Place
  pub stop : Place
  pub centre : Place
  pub radius : ℕ
  pub ang : ℕ
  pub flags : ℕ

unfoldable pub abstand_pkt_pkt : Libm → Place → Place → ℕ
abstand_pkt_pkt m (x1, y1) (x2, y2) =
    let dx = m.ops.minus x2 x1 in
    let dy = m.ops.minus y2 y1 in m.sqrt (m.ops.plus (m.ops.times dx dx) (m.ops.times dy dy))

unfoldable pub abstand_pkt_gerade : Libm → Place → Place → ℕ → ℕ
abstand_pkt_gerade m (px, py) (qx, qy) angle =
    m.ops.minus (m.ops.times (m.cos angle) (m.ops.minus py qy))
      (m.ops.times (m.ops.minus px qx) (m.sin angle))

unfoldable pub norm_winkel_eps : Libm → ℕ → ℕ → ℕ
norm_winkel_eps m angle eps =
    let r = m.ops.times (m.fraction (m.ops.over angle geo_two_pi)) geo_two_pi in
    let up = if double_ltb r 0 then m.ops.plus r geo_two_pi else r in
    if double_ltb up eps || double_ltb (m.ops.minus geo_two_pi up) eps then 0 else up

unfoldable pub compare_sinus_winkel : Libm → ℕ → ℕ → ℕ → ℕ → ℕ → ℕ
compare_sinus_winkel m s1 c1 s2 c2 eps =
    if double_ltb (fabs (m.ops.minus c1 c2)) eps && double_ltb (fabs (m.ops.minus s1 s2)) eps
    then 1
    else if double_leb eps (fabs (m.ops.plus c1 c2)) || double_leb eps (fabs (m.ops.plus s2 s1))
    then 5
    else 3

-- `(r2 != 1) ? (r2 != 3) + 4 : 2`
abbrev pub across : ℕ → ℕ
across r = if r == 1 then 2 else if r == 3 then 4 else 5

unfoldable pub compare_winkel : Libm → ℕ → ℕ → ℕ → ℕ
unfolding compare_sinus_winkel
compare_winkel m a1 a2 tol =
    let e = m.sin tol in
    let a = m.ops.plus a2 geo_pi_2 in
    let r = compare_sinus_winkel m (m.sin a1) (m.cos a1) (m.sin a2) (m.cos a2) e in
    if r == 1 || r == 3
    then r
    else across (compare_sinus_winkel m (m.sin a1) (m.cos a1) (m.sin a) (m.cos a) e)

-- `while (l < bound) l += GEO_TWO_PI;`, on fuel
unfoldable pub unwrap : Libm → ℕ → ℕ → ℕ → Option ℕ
unwrap m zero l bound = none
unwrap m (suc fuel) l bound =
    let rest = unwrap m fuel (m.ops.plus l geo_two_pi) bound in
    if double_ltb l bound then rest else some l

abbrev pub less_from : Libm → ℕ → Option ℕ → Option ℕ
less_from m l3 none = none
less_from m l3 (some l2) = some (m.ops.minus l3 l2)

abbrev pub less_by : Libm → ℕ → Option ℕ → Option ℕ
less_by m l2 none = none
less_by m l2 (some l3) = some (m.ops.minus l3 l2)

-- `oeffnungswinkel`; `none` where the fuel does not reach.
unfoldable pub oeffnungswinkel : Libm → ℕ → ℕ → ℕ → ℕ → ℕ → Option ℕ
unfolding compare_winkel unwrap
oeffnungswinkel m fuel a1 a2 dir tol =
    if compare_winkel m a1 a2 tol == 1
    then some 0
    else if double_leb dir 0
    then less_from m a2 (unwrap m fuel a1 (m.ops.minus a2 tol))
    else less_by m a1 (unwrap m fuel a2 (m.ops.minus a1 tol))

-- The octant boundaries
abbrev pub boundaries : List ℕ
boundaries =
    0x3fe921fb54442d18 ∷ 0x3ff921fb54442d18 ∷ 0x4002d97c7f3321d2 ∷ 0x400921fb54442d18
    ∷ 0x400f6a7a2955385e ∷ 0x4012d97c7f3321d2 ∷ 0x4015fdbbe9bba775 ∷ []

-- The cascade from a boundary on, with the code of its lower side
unfoldable pub cascade : Libm → ℕ → ℕ → List ℕ → ℕ → ℕ
cascade m a eps [] code = 0x10000
cascade m a eps (b ∷ bs) code =
    let rest = cascade m a eps bs (code * 4) in
    if not (double_leb (m.ops.minus b eps) a)
    then code
    else if not (double_leb (m.ops.plus b eps) a)
    then code * 2
    else rest

unfoldable pub get_winkel_richtung : Libm → ℕ → ℕ → ℕ
unfolding norm_winkel_eps cascade
get_winkel_richtung m angle eps =
    let a = norm_winkel_eps m angle eps in
    if double_leb eps (fabs (m.sin a)) || double_leb eps (fabs (m.ops.minus (m.cos a) one_d))
    then cascade m a eps boundaries 4
    else 2

-- `GEOLIB_IsGeoringBereich` on the addresses of two elements: `none` where it would read through a
-- null second pointer.
unfoldable pub is_georing_bereich : Libm → (ℕ → Element) → ℕ → ℕ → ℕ → Option Bool
unfolding abstand_pkt_pkt
is_georing_bereich m memory p q tol =
    if p == 0 || p == q
    then some false
    else if q == 0
    then none
    else some (double_ltb (abstand_pkt_pkt m (memory p).start (memory q).stop) tol)

unfoldable pub wert_im_intervall : Libm → ℕ → ℕ → ℕ → ℕ → Bool
wert_im_intervall m a b c d =
    if double_leb c b
    then double_ltb c (m.ops.plus a d) && double_ltb a (m.ops.plus d b)
    else double_ltb b (m.ops.plus a d) && double_ltb a (m.ops.plus c d)

unfoldable pub wert_im_offenen_intervall : Libm → ℕ → ℕ → ℕ → ℕ → Bool
wert_im_offenen_intervall m a b c d =
    if double_leb c b
    then double_leb (m.ops.plus c d) a && double_leb (m.ops.plus d a) b
    else double_leb (m.ops.plus b d) a && double_leb (m.ops.plus d a) c

unfoldable pub flaeche_von_trapez : Libm → ℕ → ℕ → ℕ → ℕ
flaeche_von_trapez m a b h = m.ops.times (m.ops.times half_d (m.ops.plus a b)) h

abbrev pub at_point : Libm → Place → Place → ℕ → Bool
unfolding abstand_pkt_pkt
at_point m p q tol = double_ltb (abstand_pkt_pkt m p q) (m.ops.plus tol geo_eps)

-- `none` is a null element in what follows.
unfoldable pub is_startpunkt : Libm → Option Element → Place → ℕ → Bool
unfolding at_point
is_startpunkt m none p tol = false
is_startpunkt m (some g) p tol = at_point m g.start p tol

unfoldable pub is_zielpunkt : Libm → Option Element → Place → ℕ → Bool
unfolding at_point
is_zielpunkt m none p tol = false
is_zielpunkt m (some g) p tol = at_point m g.stop p tol

abbrev pub both_have : ℕ → Element → Element → Bool
both_have bit g h = not (bit_and (bit_and g.flags h.flags) bit == 0)

abbrev pub within : Libm → ℕ → Place → Place → Bool
unfolding abstand_pkt_pkt
within m tol p q = double_leb (abstand_pkt_pkt m p q) tol

-- The two elements by their type: lines by the first test, arcs by the second
abbrev pub by_type : Element → Element → Bool → Bool → Bool
by_type g h lines arcs = if both_have 0x20 g h then lines else both_have 0x40 g h && arcs

abbrev pub same_ends : Libm → ℕ → Element → Element → Bool
unfolding within
same_ends m tol g h = within m tol g.start h.start && within m tol g.stop h.stop

abbrev pub crossed_ends : Libm → ℕ → Element → Element → Bool
unfolding within
crossed_ends m tol g h = within m tol g.start h.stop && within m tol g.stop h.start

abbrev pub same_radius : Libm → ℕ → Element → Element → Bool
same_radius m tol g h = double_ltb (fabs (m.ops.minus g.radius h.radius)) tol

abbrev pub opposite_radius : Libm → ℕ → Element → Element → Bool
opposite_radius m tol g h = double_ltb (fabs (m.ops.plus g.radius h.radius)) tol

abbrev pub both : (Element → Element → Bool) → Option Element → Option Element → Bool
both p none h = false
both p (some g) none = false
both p (some g) (some h) = p g h

abbrev pub identical : Libm → ℕ → Element → Element → Bool
unfolding same_ends within
identical m tol g h =
    by_type g h (same_ends m tol g h)
      (same_radius m tol g h && (same_ends m tol g h && within m tol g.centre h.centre))

unfoldable pub is_identisch : Libm → Option Element → Option Element → ℕ → Bool
unfolding identical
is_identisch m g h tol = both (identical m tol) g h

abbrev pub inverse : Libm → ℕ → Element → Element → Bool
unfolding crossed_ends within
inverse m tol g h =
    by_type g h (crossed_ends m tol g h)
      (opposite_radius m tol g h && (crossed_ends m tol g h && within m tol g.centre h.centre))

unfoldable pub is_invers : Libm → Option Element → Option Element → ℕ → Bool
unfolding inverse
is_invers m g h tol = both (inverse m tol) g h

-- Directions that compare as `code`, and a start on the other's line
abbrev pub on_line : Libm → ℕ → ℕ → ℕ → Element → Element → Bool
unfolding compare_winkel abstand_pkt_gerade
on_line m code pos_tol ang_tol g h =
    compare_winkel m g.ang h.ang ang_tol == code
    && double_leb (fabs (abstand_pkt_gerade m g.start h.start h.ang)) pos_tol

unfoldable pub is_math_identisch : Libm → Option Element → Option Element → ℕ → ℕ → Bool
unfolding on_line within
is_math_identisch m g h pos_tol ang_tol =
    both
      (λ x y.
        by_type x y (on_line m 1 pos_tol ang_tol x y)
          (same_radius m pos_tol x y && within m pos_tol x.centre y.centre))
      g h

unfoldable pub is_math_invers : Libm → Option Element → Option Element → ℕ → ℕ → Bool
unfolding on_line within
is_math_invers m g h pos_tol ang_tol =
    both
      (λ x y.
        by_type x y (on_line m 3 pos_tol ang_tol x y)
          (opposite_radius m pos_tol x y && within m pos_tol x.centre y.centre))
      g h
