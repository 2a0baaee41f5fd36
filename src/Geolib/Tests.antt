-- ===== src/Geolib/Tests.antt =====
-- The library with a concrete arithmetic, that of the patterns.
use tnc640unix.Base.{
  ℕ, ◌+◌, ◌-◌, ◌*◌, ◌/◌, ◌≡◌, refl, ap, some, arith, fabs, Arithmetic, ◌^◌, if◌then◌else◌, ◌==◌,
  ltb,
}
use tnc640unix.Geolib.{Libm, Element, is_identisch, is_invers, oeffnungswinkel}
use tnc640unix.Geolib.Elements.{Symmetric, Numeric, element, elements_swap}
use tnc640unix.Geolib.Unwrap.{Advances, Answers, oeffnungswinkel-Answers}

abbrev patterns : Arithmetic
patterns = record {
  plus = λ x y. x + y;
  minus = λ x y. x - y + (y - x);
  times = λ x y. x * y;
  over = λ x y. x / y;
}

abbrev plain : Libm
plain = record { ops = patterns; sqrt = λ x. x; sin = λ x. x; cos = λ x. x; fraction = λ x. x }

swapped : (x y : ℕ) → x - y + (y - x) ≡ y - x + (x - y)
swapped x y = omega arith

plain-Symmetric : Symmetric plain
plain-Symmetric = record {
  difference = λ x y hx hy. ap fabs (swapped x y);
  square = λ x y hx hy. ap (λ d. d * d) (swapped x y);
  sum = λ x y hx hy. omega arith;
}

abbrev an_arc : Element
an_arc = record {
  start = (1, 2);
  stop = (3, 4);
  centre = (2, 2);
  radius = 5;
  ang = 0;
  flags = 0x40;
}

abbrev other_arc : Element
other_arc = record an_arc { radius = 6; stop = (4, 4) }

an_arc-Numeric : Numeric an_arc
an_arc-Numeric = record {
  start = record { x = refl; y = refl };
  stop = record { x = refl; y = refl };
  centre = record { x = refl; y = refl };
  radius = refl;
}

other_arc-Numeric : Numeric other_arc
other_arc-Numeric = record {
  start = record { x = refl; y = refl };
  stop = record { x = refl; y = refl };
  centre = record { x = refl; y = refl };
  radius = refl;
}

elements_swap_example :
    (is_identisch plain (some an_arc) (some other_arc) 9
      ≡ is_identisch plain (some other_arc) (some an_arc) 9)
    × (is_invers plain (some an_arc) (some other_arc) 9
        ≡ is_invers plain (some other_arc) (some an_arc) 9)
elements_swap_example =
    elements_swap plain plain-Symmetric 9 (some an_arc) (some other_arc) (element an_arc-Numeric)
      (element other_arc-Numeric)

-- An arithmetic whose sums are the next double up from the first summand
abbrev stepping : Libm
stepping = record plain {
  ops = record patterns {
    plus = λ x y. if x == 2 ^ 63 then 1 else if ltb x (2 ^ 63) then x + 1 else x - 1;
  };
}

stepping-Advances : Advances stepping
stepping-Advances = record { further = λ l low high. ground arith }

oeffnungswinkel-Answers_example :
    (v : ℕ) × (oeffnungswinkel stepping 4 1 3 0 0 ≡ some v) × Answers stepping 1 3 0 0 v
oeffnungswinkel-Answers_example =
    oeffnungswinkel-Answers stepping 4 1 3 0 0 stepping-Advances refl refl refl refl (omega arith)
      (omega arith)
