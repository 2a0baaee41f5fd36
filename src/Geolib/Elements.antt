-- ===== src/Geolib/Elements.antt =====
-- The tests for the same and for the reversed element do not depend on the order of their arguments.
use tnc640unix.Base.{
  ℕ, bit_and_comm, ◌≡◌, refl, ap, Bool, true, false, ◌&&◌, not, Option, none, some, ◌==◌, bit_and,
  is_number, double_leb, double_ltb, fabs,
}
use tnc640unix.Geolib.{
  Libm, Place, Element, abstand_pkt_pkt, within, both_have, same_ends, crossed_ends, identical,
  inverse, is_identisch, is_invers,
}

-- What IEEE 754 says of the operations on numbers: a difference changes its sign alone when its
-- operands change places, and a sum not even that.
pub record Symmetric (m : Libm) : Type 0 where
  pub difference :
      (x y : ℕ)
      → is_number x ≡ true
      → is_number y ≡ true
      → fabs (m.ops.minus x y) ≡ fabs (m.ops.minus y x)
  pub square :
      (x y : ℕ)
      → is_number x ≡ true
      → is_number y ≡ true
      → m.ops.times (m.ops.minus x y) (m.ops.minus x y)
        ≡ m.ops.times (m.ops.minus y x) (m.ops.minus y x)
  pub sum : (x y : ℕ) → is_number x ≡ true → is_number y ≡ true → m.ops.plus x y ≡ m.ops.plus y x

pub record PlaceOk (p : Place) : Type 0 where
  pub x : is_number p.0 ≡ true
  pub y : is_number p.1 ≡ true

-- An element whose fields are numbers
pub record Numeric (g : Element) : Type 0 where
  pub start : PlaceOk g.start
  pub stop : PlaceOk g.stop
  pub centre : PlaceOk g.centre
  pub radius : is_number g.radius ≡ true

pub data AllNumeric : Option Element → Type 0 where
  null : AllNumeric none
  element : {g : Element} → Numeric g → AllNumeric (some g)

and_swap : (a b : Bool) → (a && b) ≡ (b && a)
and_swap true true = refl
and_swap true false = refl
and_swap false true = refl
and_swap false false = refl

both_have_swap : (bit : ℕ) (g h : Element) → both_have bit g h ≡ both_have bit h g
both_have_swap bit g h = ap (λ f. not (bit_and f bit == 0)) (bit_and_comm g.flags h.flags)

module _ (m : Libm) (l : Symmetric m) (tol : ℕ) where
  abstand_swap :
      (p q : Place) → PlaceOk p → PlaceOk q → abstand_pkt_pkt m p q ≡ abstand_pkt_pkt m q p
  unfolding abstand_pkt_pkt
  abstand_swap (x1, y1) (x2, y2) hp hq =
      λ i. m.sqrt (m.ops.plus (l.square x2 x1 hq.x hp.x i) (l.square y2 y1 hq.y hp.y i))

  within_swap : (p q : Place) → PlaceOk p → PlaceOk q → within m tol p q ≡ within m tol q p
  unfolding within
  within_swap p q hp hq = ap (λ d. double_leb d tol) (abstand_swap p q hp hq)

  identical_swap :
      (g h : Element) → Numeric g → Numeric h → identical m tol g h ≡ identical m tol h g
  unfolding identical same_ends
  identical_swap g h ng nh =
      rw
        (
          both_have_swap 0x20 g h,
          both_have_swap 0x40 g h,
          within_swap g.start h.start ng.start nh.start,
          within_swap g.stop h.stop ng.stop nh.stop,
          within_swap g.centre h.centre ng.centre nh.centre,
          l.difference g.radius h.radius ng.radius nh.radius,
        )
        refl

  crossed_swap :
      (g h : Element) → Numeric g → Numeric h → crossed_ends m tol g h ≡ crossed_ends m tol h g
  unfolding crossed_ends
  crossed_swap g h ng nh =
      rw (within_swap g.start h.stop ng.start nh.stop, within_swap g.stop h.start ng.stop nh.start)
        (and_swap (within m tol h.stop g.start) (within m tol h.start g.stop))

  inverse_swap : (g h : Element) → Numeric g → Numeric h → inverse m tol g h ≡ inverse m tol h g
  unfolding inverse
  inverse_swap g h ng nh =
      rw
        (
          both_have_swap 0x20 g h,
          both_have_swap 0x40 g h,
          crossed_swap g h ng nh,
          within_swap g.centre h.centre ng.centre nh.centre,
          ap (λ r. double_ltb (fabs r) tol) (l.sum g.radius h.radius ng.radius nh.radius),
        )
        refl

  -- For elements whose fields are numbers, or null ones, and a difference and a sum as IEEE 754 says:
  -- GEOLIB_IsIdentisch and GEOLIB_IsInvers do not depend on the order of the two elements.
  pub elements_swap :
      (g h : Option Element)
      → AllNumeric g
      → AllNumeric h
      → (is_identisch m g h tol ≡ is_identisch m h g tol)
        × (is_invers m g h tol ≡ is_invers m h g tol)
  unfolding is_identisch is_invers
  elements_swap none none ng nh = (refl, refl)
  elements_swap none (some h) ng nh = (refl, refl)
  elements_swap (some g) none ng nh = (refl, refl)
  elements_swap (some g) (some h) (element ng) (element nh) =
      (identical_swap g h ng nh, inverse_swap g h ng nh)
