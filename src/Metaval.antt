-- ===== src/Metaval.antt =====
-- recomp/metaval, recomp/drehcyc and recomp/aequi: the accessors of meta values, over the fields that
-- they read, and the leaves of the turning cycles and of the offset curves. A double is its 64-bit
-- pattern.
use tnc640unix.Base.{
  ℕ, suc, ◌+◌, ◌/◌, ◌%◌, ◌^◌, ◌≡◌, refl, Bool, true, false, ◌&&◌, List, [], ◌∷◌, if◌then◌else◌,
  ◌==◌, length, arith, bit_and, double_leb, double_ltb, fabs, Arithmetic,
}

-- MV_MM_PER_FEED, MV_MM_PER_POS and 1.0
abbrev pub mm_per_feed : ℕ
mm_per_feed = 0x400451eb851eb852

abbrev pub mm_per_pos : ℕ
mm_per_pos = 0x4039666666666666

abbrev one_d : ℕ
one_d = 0x3ff0000000000000

-- `mv_InchPrecision`
unfoldable pub inch_precision : Bool → ℕ → Bool
inch_precision b d = b && double_ltb one_d d

-- `mv_ToMetricFeedValue`
unfoldable pub to_metric_feed_value : Bool → ℕ
to_metric_feed_value m = if m then mm_per_feed else one_d

-- `mv_ToMetricPosValue`
unfoldable pub to_metric_pos_value : Bool → ℕ
to_metric_pos_value m = if m then mm_per_pos else one_d

-- `mv_ToNonMetricFeedValue`
unfoldable pub to_non_metric_feed_value : Arithmetic → Bool → ℕ
to_non_metric_feed_value a m = a.over one_d (if m then mm_per_feed else one_d)

-- `mv_ToNonMetricPosValue`
unfoldable pub to_non_metric_pos_value : Arithmetic → Bool → ℕ
to_non_metric_pos_value a m = a.over one_d (if m then mm_per_pos else one_d)

-- The fields of a CycMetaValue at 0x0c and 0x24
pub record CycMetaValue : Type 0 where
  pub value : ℕ
  pub text_size : ℕ

abbrev pub cyc_is_cardinal : CycMetaValue → Bool
cyc_is_cardinal t = false

abbrev pub cyc_is_integer : CycMetaValue → Bool
cyc_is_integer t = false

abbrev pub cyc_is_real : CycMetaValue → Bool
cyc_is_real t = true

abbrev pub cyc_get_array_size : CycMetaValue → ℕ
cyc_get_array_size t = 1

-- `mv_CycIsSigned`
unfoldable pub cyc_is_signed : CycMetaValue → Bool
cyc_is_signed t = double_ltb t.value 0

abbrev pub cyc_get_text_length : CycMetaValue → ℕ
cyc_get_text_length t = t.text_size

-- `kind` and `bits` are the fields `type` and `flags`.
pub record TncFmt : Type 0 where
  pub textlen : ℕ
  pub kind : ℕ
  pub bits : ℕ

-- A TncObj, its format read through the pointer, and whether `impl` is there
pub record TncObj : Type 0 where
  pub fmt : TncFmt
  pub has_impl : Bool

-- `mv_TncIsSigned`
unfoldable pub tnc_is_signed : TncObj → Bool
tnc_is_signed o = if o.has_impl then o.fmt.bits / 2 ^ 5 % 2 == 1 else false

abbrev pub tnc_get_text_length : TncObj → ℕ
tnc_get_text_length o = o.fmt.textlen

-- `mv_TncGetArraySize`
abbrev pub tnc_get_array_size : TncObj → ℕ
tnc_get_array_size o = if o.has_impl then 1 else 0

-- `mv_TncIsSignedQ`
unfoldable pub tnc_is_signed_q : TncObj → Bool
tnc_is_signed_q o = if o.has_impl && o.fmt.kind == 6 then o.fmt.bits / 2 ^ 5 % 2 == 1 else false

-- aufmass_rt
pub record Aufmass : Type 0 where
  pub gate : ℕ
  pub m1 : ℕ
  pub m2 : ℕ

-- `is_aufmass_aktiv`
unfoldable pub is_aufmass_aktiv : Aufmass → ℕ → Bool
is_aufmass_aktiv am tol =
    if bit_and am.gate 0x30 == 0
    then false
    else if double_ltb (fabs am.m1) tol
    then double_leb tol (fabs am.m2)
    else true

-- `get_laengentoleranz` and `AEQ_GetLaengentoleranz`
abbrev pub get_laengentoleranz : ℕ → ℕ → ℕ
get_laengentoleranz d1 d2 = d2

-- `anz_same_level`: `n` is the count so far, the list the nodes ahead.
unfoldable pub anz_from : ℕ → List ℕ → ℕ
anz_from n [] = n
anz_from n (p ∷ ps) = anz_from (suc n) ps

unfoldable pub anz_same_level : List ℕ → ℕ
anz_same_level ps = anz_from 0 ps

-- A quantity of the type Q that is signed is signed.
pub tnc_is_signed_q-signed : (o : TncObj) → tnc_is_signed_q o ≡ true → tnc_is_signed o ≡ true
unfolding tnc_is_signed_q tnc_is_signed
tnc_is_signed_q-signed o h = by o.has_impl (o.fmt.kind == 6) (o.fmt.bits / 2 ^ 5 % 2 == 1) h
  where
    by : (a b c : Bool) → (if a && b then c else false) ≡ true → (if a then c else false) ≡ true
    by true true c h = h
    by true false true h = refl
    by true false false h = h
    by false b c h = h

-- The count adds the nodes ahead.
anz_from-length : (n : ℕ) (ps : List ℕ) → anz_from n ps ≡ n + length ps
unfolding anz_from
anz_from-length n [] = omega arith
anz_from-length n (p ∷ ps) = omega (arith, anz_from-length (suc n) ps)

-- The loop counts the nodes of the list.
pub anz_same_level-length : (ps : List ℕ) → anz_same_level ps ≡ length ps
unfolding anz_same_level
anz_same_level-length ps = omega (arith, anz_from-length 0 ps)
