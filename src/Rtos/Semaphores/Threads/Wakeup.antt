-- ===== src/Rtos/Semaphores/Threads/Wakeup.antt =====
-- Units are neither lost nor made up, and no sleeping request is forgotten.
use tnc640unix.Base.{
  ℕ, zero, suc, ◌+◌, ◌%◌, ◌^◌, ◌<◌, ◌≡◌, ◌≢◌, refl, sym, ap, subst, ◌∙◌, inl, inr, true, false,
  some, List, [], ◌∷◌, map, arith, get_elem?, set, Bool-cases,
}
use tnc640unix.Rtos.Table.Ids.{set-cases}
use tnc640unix.Rtos.Semaphores.{enough}
use tnc640unix.Rtos.Semaphores.Threads.{
  Pc, ready, loaded, asleep, granted, Waiter, Move, load, cas_win, cas_lose, sleep, moved_on, leave,
  System, roused, rouse, Step, pick, add, wake, Reach, start, later,
}

abbrev pub IsUnits : ℕ → Type 0
IsUnits u = (0 < u) × (u < 2 ^ 31)

-- What a move does to a count that another request waits for: it does not open it.
Move-enough :
    {u n m : ℕ} {p q : Pc} (v : ℕ)
    → Move u n p m q
    → IsUnits u
    → IsUnits v
    → n < 2 ^ 32
    → enough m v ≡ true
    → enough n v ≡ true
Move-enough v load hu hv low h = h
Move-enough v (cas_win e same) (p, small) (p', small') low h = ground arith
Move-enough v (cas_lose e) hu hv low h = h
Move-enough v (sleep e same) hu hv low h = h
Move-enough v (moved_on e ne) hu hv low h = h
Move-enough v leave hu hv low h = h

-- A request that goes to sleep does so on a count that is too small.
Move-asleep : {u n m : ℕ} {p q : Pc} → Move u n p m q → q ≡ asleep → enough m u ≡ false
Move-asleep load h = cc
Move-asleep (cas_win e same) h = cc
Move-asleep (cas_lose e) h = cc
Move-asleep {u} (sleep e same) h = ap (λ k. enough k u) same ∙ e
Move-asleep (moved_on e ne) h = cc
Move-asleep leave h = cc

Move-range : {u n m : ℕ} {p q : Pc} → Move u n p m q → n < 2 ^ 32 → m < 2 ^ 32
Move-range load h = h
Move-range (cas_win e same) h = omega arith
Move-range (cas_lose e) h = h
Move-range (sleep e same) h = h
Move-range (moved_on e ne) h = h
Move-range leave h = h

pub record Inv (s : System) : Type 0 where
  pub range : s.count < 2 ^ 32
  pub units : (i : ℕ) (w : Waiter) → get_elem? s.waiters i ≡ some w → IsUnits w.units
  pub noticed :
      (i : ℕ) (w : Waiter)
      → get_elem? s.waiters i ≡ some w
      → w.pc ≡ asleep
      → enough s.count w.units ≡ true
      → 0 < s.waking

Inv-pick :
    (s : System) (i : ℕ) (w : Waiter) {n : ℕ} {pc : Pc}
    → get_elem? s.waiters i ≡ some w
    → Move w.units s.count w.pc n pc
    → Inv s
    → Inv (record s { count = n; waiters = set s.waiters i (record w { pc = pc }) })
Inv-pick s i w {n} {pc} at m inv = record {
  range = Move-range m inv.range;
  units = λ j v h. elim (set-cases (λ x. true) (λ x. 0) s.waiters i j (record w { pc = pc }) v h) [
    | inl (_, e) ↦ subst (λ x. IsUnits x.units) (sym e) (inv.units i w at)
    | inr (_, old) ↦ inv.units j v old
  ];
  noticed = λ j v h z open_.
      elim (set-cases (λ x. true) (λ x. 0) s.waiters i j (record w { pc = pc }) v h) [
        | inl (_, e) ↦
            cc (open_, ap (λ x. enough n x.units) e, Move-asleep m (sym (ap (λ x. x.pc) e) ∙ z))
        | inr (_, old) ↦
            inv.noticed j v old z
              (Move-enough v.units m (inv.units i w at) (inv.units j v old) inv.range open_)
      ];
}

get_elem?-map :
    {A B : Type 0} (f : A → B) (xs : List A) (i : ℕ) (y : B)
    → get_elem? (map f xs) i ≡ some y
    → (x : A) × (get_elem? xs i ≡ some x) × (y ≡ f x)
get_elem?-map f [] i y h = cc
get_elem?-map f (x ∷ xs) zero y h = (x, refl, cc)
get_elem?-map f (x ∷ xs) (suc i) y h = get_elem?-map f xs i y h

not_asleep : (pc : Pc) → roused pc ≢ asleep
not_asleep ready h = cc
not_asleep (loaded n) h = cc
not_asleep asleep h = cc
not_asleep granted h = cc

Inv-wake :
    (s : System) (k : ℕ) → Inv s → Inv (record s { waking = k; waiters = map rouse s.waiters })
Inv-wake s k inv = record {
  range = inv.range;
  units = λ i w h.
      let (v, at, e) = get_elem?-map rouse s.waiters i w h in
      subst (λ x. IsUnits x.units) (sym e) (inv.units i v at);
  noticed = λ i w h z open_.
      let (v, at, e) = get_elem?-map rouse s.waiters i w h in
      absurd (not_asleep v.pc (sym (ap (λ x. x.pc) e) ∙ z));
}

Inv-Step : {s t : System} {n : ℕ} → Step s n t → Inv s → Inv t
Inv-Step {s} (pick i w at m) inv = Inv-pick s i w at m inv
Inv-Step {s} (add units) inv = record {
  range = omega arith;
  units = inv.units;
  noticed = λ i w h z open_. omega arith;
}
Inv-Step {s} (wake k e) inv = Inv-wake s k inv

Inv-Reach :
    {count : ℕ} {wants : List ℕ} {r : ℕ} {s : System}
    → count < 2 ^ 32
    → ((i u : ℕ) → get_elem? wants i ≡ some u → IsUnits u)
    → Reach count wants r s
    → Inv s
Inv-Reach {count} {wants} {r} low ok start = record {
  range = low;
  units = λ i w h.
      let (u, at, e) = get_elem?-map (λ u. record { units = u; pc = ready }) wants i w h in
      subst (λ x. IsUnits x.units) (sym e) (ok i u at);
  noticed = λ i w h z open_.
      let (u, at, e) = get_elem?-map (λ u. record { units = u; pc = ready }) wants i w h in
      cc (z, ap (λ x. x.pc) e);
}
Inv-Reach low ok (later reach step) = Inv-Step step (Inv-Reach low ok reach)

-- No wake-up is lost: in every state that is reached from requests of between 1 and 2^31 - 1
-- units, if no release stands between its addition and its wake, then no request sleeps on a count
-- that would let it through.
pub no_lost_wakeup :
    {count : ℕ} {wants : List ℕ} {r : ℕ} {s : System}
    → count < 2 ^ 32
    → ((i u : ℕ) → get_elem? wants i ≡ some u → IsUnits u)
    → Reach count wants r s
    → s.waking ≡ 0
    → (i : ℕ) (w : Waiter) → get_elem? s.waiters i ≡ some w
    → w.pc ≡ asleep
    → enough s.count w.units ≡ false
no_lost_wakeup {s = s} low ok reach quiet i w at z = elim (Bool-cases (enough s.count w.units)) [
  | inl open_ ↦ absurd (omega (arith, (Inv-Reach low ok reach).noticed i w at z open_))
  | inr shut ↦ shut
]

-- The units that a request has been granted.
abbrev pub spent_at : ℕ → Pc → ℕ
spent_at u granted = u
spent_at u _ = 0

pub spent : List Waiter → ℕ
spent [] = 0
spent (w ∷ ws) = spent_at w.units w.pc + spent ws

spent-set :
    (ws : List Waiter) (i : ℕ) (w v : Waiter)
    → get_elem? ws i ≡ some w
    → spent (set ws i v) + spent_at w.units w.pc ≡ spent ws + spent_at v.units v.pc
unfolding spent
spent-set [] i w v h = cc
spent-set (x ∷ ws) zero w v h = omega (arith, ap (λ y. spent_at y.units y.pc) (first h))
  where
    first : some x ≡ some w → x ≡ w
    first e = cc
spent-set (x ∷ ws) (suc i) w v h = omega (arith, spent-set ws i w v h)

spent-rouse : (ws : List Waiter) → spent (map rouse ws) ≡ spent ws
unfolding spent
spent-rouse [] = refl
spent-rouse (w ∷ ws) =
    ap (λ n. n + spent (map rouse ws)) (same w.units w.pc)
    ∙ ap (◌+◌ (spent_at w.units w.pc)) (spent-rouse ws)
  where
    same : (u : ℕ) (pc : Pc) → spent_at u (roused pc) ≡ spent_at u pc
    same u ready = refl
    same u (loaded n) = refl
    same u asleep = refl
    same u granted = refl

spent-start : (wants : List ℕ) → spent (map (λ u. record { units = u; pc = ready }) wants) ≡ 0
unfolding spent
spent-start [] = refl
spent-start (u ∷ wants) = omega (arith, spent-start wants)

Move-spent :
    {u n m : ℕ} {p q : Pc}
    → Move u n p m q
    → u < 2 ^ 31
    → n < 2 ^ 32
    → (m + spent_at u q) % 2 ^ 32 ≡ (n + spent_at u p) % 2 ^ 32
Move-spent load hu h = refl
Move-spent (cas_win e same) hu h = omega arith
Move-spent (cas_lose e) hu h = refl
Move-spent (sleep e same) hu h = refl
Move-spent (moved_on e ne) hu h = refl
Move-spent leave hu h = refl

Step-spent :
    {s t : System} {n : ℕ}
    → Step s n t
    → Inv s
    → (t.count + spent t.waiters) % 2 ^ 32 ≡ (s.count + spent s.waiters + n) % 2 ^ 32
Step-spent {s} (pick i w {n} {pc} at move) inv = omega (
  arith,
  spent-set s.waiters i w (record w { pc = pc }) at,
  Move-spent move (inv.units i w at).1 inv.range,
)
Step-spent {s} (add units) inv = omega arith
Step-spent {s} (wake k e) inv = omega (arith, spent-rouse s.waiters)

-- Units are neither lost nor made up: in every state that is reached from requests of between 1
-- and 2^31 - 1 units, the count and the units granted make up the first count and the units
-- released, modulo 2^32.
pub units_conserved :
    {count : ℕ} {wants : List ℕ} {r : ℕ} {s : System}
    → count < 2 ^ 32
    → ((i u : ℕ) → get_elem? wants i ≡ some u → IsUnits u)
    → Reach count wants r s
    → (s.count + spent s.waiters) % 2 ^ 32 ≡ (count + r) % 2 ^ 32
units_conserved {count} {wants} low ok start = omega (arith, spent-start wants)
units_conserved {count} {wants} low ok (later {r} {n} {s} {t} reach step) =
    omega (arith, Step-spent step (Inv-Reach low ok reach), units_conserved low ok reach)
