-- ===== src/Dmathe/Angles.antt =====
-- Where the angles of the library lie.
use tnc640unix.Base.{
  ℕ, ℤ, ◌≡◌, refl, ◌⊎◌, inl, inr, Bool, true, false, ◌||◌, if◌then◌else◌, double_ltb,
}
use tnc640unix.Dmathe.{
  Maths, Point, is_one, two_pi, half_pi, snap_eps, lifted, snapped, norm_winkel,
  kreis_tangenten_winkel, winkelstrecke,
}

-- Zero, or not below the snapping distance and not within it of a full turn
abbrev pub Normal : Maths → ℕ → Type 0
Normal m r =
    (r ≡ 0)
    ⊎ ((double_ltb r snap_eps ≡ false) × (double_ltb (m.ops.minus two_pi r) snap_eps ≡ false))

snapped-Normal : (m : Maths) (r : ℕ) → Normal m (snapped m r)
snapped-Normal m r =
    choose (double_ltb r snap_eps) (double_ltb (m.ops.minus two_pi r) snap_eps) refl refl
  where
    choose :
        (s t : Bool)
        → double_ltb r snap_eps ≡ s
        → double_ltb (m.ops.minus two_pi r) snap_eps ≡ t
        → Normal m (if s || t then 0 else r)
    choose true t hs ht = inl refl
    choose false true hs ht = inl refl
    choose false false hs ht = inr (hs, ht)

-- NormWinkel answers 0 or an angle that is neither below the snapping distance nor within it of a
-- full turn.
pub norm_winkel-Normal : (m : Maths) (a : ℕ) → Normal m (norm_winkel m a)
unfolding norm_winkel
norm_winkel-Normal m a =
    snapped-Normal m (lifted m (m.ops.times (m.modf (m.ops.over a two_pi)).0 two_pi))

-- So does KreisTangentenWinkel, whichever side it is asked for.
pub kreis_tangenten_winkel-Normal :
    (m : Maths) (flag : ℤ) (a b : Point) → Normal m (kreis_tangenten_winkel m flag a b)
unfolding kreis_tangenten_winkel
kreis_tangenten_winkel-Normal m flag a b =
    let w = winkelstrecke m a b in
    side (is_one flag) (norm_winkel-Normal m (m.ops.plus w half_pi))
      (norm_winkel-Normal m (m.ops.minus w half_pi))
  where
    side : {x y : ℕ} (t : Bool) → Normal m x → Normal m y → Normal m (if t then x else y)
    side true hx hy = hx
    side false hx hy = hy
