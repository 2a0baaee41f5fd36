-- ===== src/Rtos/Evdev/Runs.antt =====
-- The pipes of a process over any run of sends, receives, watcher turns and registrations.
use tnc640unix.Base.{
  ℕ, zero, suc, ◌≤◌, ◌≡◌, refl, subst, inl, inr, Bool, true, false, Option, none, some, List, [],
  ◌∷◌, ◌++◌, arith, if◌then◌else◌, Bool-cases, ◌==◌, ltb, length, length-set, length-append,
  get_elem?, get_or, set,
}
use tnc640unix.Rtos.Table.{find_slot}
use tnc640unix.Rtos.State.{Ctl, Caller, Env}
use tnc640unix.Rtos.Tasks.{task_slot, task_self, task_at}
use tnc640unix.Rtos.Events.{ev_send, ev_turn}
use tnc640unix.Rtos.Evdev.{
  Evdev, Bridge, no_evdev, evdev_at, put_evdev, reconcile_at, evdev_reconcile,
  evdev_reconcile_locked, ev_send_bridged, ev_turn_bridged, evdev_watch, heros_evdev_register,
  heros_evdev_setmask, max_evdev, place, settle, masked, reconciles, same_evdev, is_some,
}
use tnc640unix.Rtos.Evdev.Pipes.{Coherent, reconcile-Coherent}

-- What threads of the process, and senders of other processes, do
pub data Event : Type 0 where
  sends : ℕ → ℕ → Event
  sent_elsewhere : ℕ → ℕ → Event
  receives : ℕ → ℕ → ℕ → ℕ → Bool → Event
  watches : Bool → ℕ → Event
  registers : Env → Caller → ℕ → ℕ → Event
  masks : ℕ → ℕ → Event

unfoldable pub step : Event → Ctl × Bridge → Ctl × Bridge
unfolding ev_send_bridged ev_turn_bridged evdev_watch heros_evdev_register heros_evdev_setmask
    ev_send
step (sends task bits) (c, b) = (ev_send_bridged task bits (c, b)).1
step (sent_elsewhere task bits) (c, b) = ((ev_send task bits c).1, b)
step (receives s want cond timeout expired) (c, b) =
    (ev_turn_bridged s want cond timeout expired (c, b)).1
step (watches knob i) (c, b) = (c, evdev_watch knob i c b)
step (registers e w rd wr) (c, b) = heros_evdev_register e w rd wr (c, b)
step (masks rd mask) (c, b) = (c, heros_evdev_setmask rd mask c b)

unfoldable pub run : List Event → Ctl × Bridge → Ctl × Bridge
run [] w = w
run (x ∷ xs) w = run xs (step x w)

-- Every pipe has one byte where its entry is signaled and none otherwise, and there are MAXEVDEV
-- entries at most.
pub record PipesOk (b : Bridge) : Type 0 where
  pub coherent : (i : ℕ) (d : Evdev) → get_elem? b.evdevs i ≡ some d → Coherent d
  pub bounded : length b.evdevs ≤ max_evdev

set_all :
    (ds : List Evdev) (j : ℕ) (e : Evdev)
    → Coherent e
    → ((i : ℕ) (d : Evdev) → get_elem? ds i ≡ some d → Coherent d)
    → (i : ℕ) (d : Evdev) → get_elem? (set ds j e) i ≡ some d
    → Coherent d
set_all [] j e he h i d at = h i d at
set_all (x ∷ ds) zero e he h zero d at = subst Coherent (some_inj at) he
  where
    some_inj : some e ≡ some d → e ≡ d
    some_inj p = cc
set_all (x ∷ ds) zero e he h (suc i) d at = h (suc i) d at
set_all (x ∷ ds) (suc j) e he h zero d at = h zero d at
set_all (x ∷ ds) (suc j) e he h (suc i) d at = set_all ds j e he (λ k y p. h (suc k) y p) i d at

append_all :
    (ds : List Evdev) (e : Evdev)
    → Coherent e
    → ((i : ℕ) (d : Evdev) → get_elem? ds i ≡ some d → Coherent d)
    → (i : ℕ) (d : Evdev) → get_elem? (ds ++ (e ∷ [])) i ≡ some d
    → Coherent d
append_all [] e he h zero d at = subst Coherent (some_inj at) he
  where
    some_inj : some e ≡ some d → e ≡ d
    some_inj p = cc
append_all [] e he h (suc i) d at = cc
append_all (x ∷ ds) e he h zero d at = h zero d at
append_all (x ∷ ds) e he h (suc i) d at = append_all ds e he (λ k y p. h (suc k) y p) i d at

get_or-all :
    (ds : List Evdev) (i : ℕ)
    → ((i : ℕ) (d : Evdev) → get_elem? ds i ≡ some d → Coherent d)
    → Coherent (get_or ds i no_evdev)
get_or-all [] i h = refl
get_or-all (x ∷ ds) zero h = h zero x refl
get_or-all (x ∷ ds) (suc i) h = get_or-all ds i (λ k y p. h (suc k) y p)

put-PipesOk : (i : ℕ) (d : Evdev) (b : Bridge) → Coherent d → PipesOk b → PipesOk (put_evdev i d b)
put-PipesOk i d b hd h = record {
  coherent = set_all b.evdevs i d hd h.coherent;
  bounded = omega (arith, length-set b.evdevs i d, h.bounded);
}

reconcile_at-PipesOk :
    (o : Option ℕ) (c : Ctl) (b : Bridge) → PipesOk b → PipesOk (reconcile_at o c b)
reconcile_at-PipesOk none c b h = h
reconcile_at-PipesOk (some i) c b h =
    put-PipesOk i (evdev_reconcile_locked b.evdev_sibling c (evdev_at i b)) b
      (reconcile-Coherent b.evdev_sibling c (evdev_at i b) (get_or-all b.evdevs i h.coherent)) h

choose_world-PipesOk :
    (t : Bool) (x y : Ctl × Bridge) → PipesOk x.1 → PipesOk y.1 → PipesOk (if t then x else y).1
choose_world-PipesOk true x y hx hy = hx
choose_world-PipesOk false x y hx hy = hy

choose-PipesOk : (t : Bool) (x y : Bridge) → PipesOk x → PipesOk y → PipesOk (if t then x else y)
choose-PipesOk true x y hx hy = hx
choose-PipesOk false x y hx hy = hy

evdev_reconcile-PipesOk :
    (task : ℕ) (c : Ctl) (b : Bridge) → PipesOk b → PipesOk (evdev_reconcile task c b)
unfolding evdev_reconcile
evdev_reconcile-PipesOk task c b h =
    choose-PipesOk b.events_bridge _ b
      (reconcile_at-PipesOk (find_slot (λ d. d.task == task) b.evdevs) c b h) h

place-PipesOk :
    (o : Option ℕ) (d : Evdev) (b : Bridge)
    → Coherent d
    → PipesOk b
    → PipesOk (record b { evdevs = place o d b.evdevs })
place-PipesOk none d b hd h = elim (Bool-cases (ltb (length b.evdevs) max_evdev)) [
  | inl room ↦ record {
    coherent = rw room (append_all b.evdevs d hd h.coherent);
    bounded = rw room (ground (arith, length-append b.evdevs (d ∷ [])));
  }
  | inr full ↦ record { coherent = rw full h.coherent; bounded = rw full h.bounded }
]
place-PipesOk (some i) d b hd h = put-PipesOk i d b hd h

register-PipesOk :
    (e : Env) (w : Caller) (rd wr : ℕ) (c : Ctl) (b : Bridge)
    → PipesOk b
    → PipesOk (heros_evdev_register e w rd wr (c, b)).1
unfolding heros_evdev_register
register-PipesOk e w rd wr c b h =
    let (t, d) = task_self e w c in
    choose_world-PipesOk b.events_bridge (d, _) (c, b)
      (place-PipesOk (find_slot (same_evdev rd t) b.evdevs)
        (record no_evdev { task = t; rd = rd; wr = wr }) b refl h)
      h

mask-PipesOk :
    (o : Option ℕ) (mask : ℕ) (c : Ctl) (b : Bridge) → PipesOk b → PipesOk (masked o mask c b)
mask-PipesOk none mask c b h = h
mask-PipesOk (some i) mask c b h =
    let d = record (evdev_at i b) { sysmask = mask } in
    reconcile_at-PipesOk (some i) c (put_evdev i d b)
      (put-PipesOk i d b (get_or-all b.evdevs i h.coherent) h)

watch-PipesOk :
    (knob : Bool) (i : ℕ) (c : Ctl) (b : Bridge) → PipesOk b → PipesOk (evdev_watch knob i c b)
unfolding evdev_watch
watch-PipesOk knob i c b h =
    let settled = record b { evdev_sibling = settle knob b.evdev_sibling } in
    elim (task_slot (evdev_at i b).task c)
      as (λ o. PipesOk (elim o [ none ↦ b | some s ↦ reconcile_at (some i) c settled ])) [
        | none ↦ h
        | some s ↦
            reconcile_at-PipesOk (some i) c settled
              (record { coherent = h.coherent; bounded = h.bounded })
      ]

step-PipesOk : (x : Event) (c : Ctl) (b : Bridge) → PipesOk b → PipesOk (step x (c, b)).1
unfolding step ev_send_bridged ev_turn_bridged heros_evdev_setmask
step-PipesOk (sends task bits) c b h =
    choose-PipesOk (is_some (task_slot task c)) _ b
      (evdev_reconcile-PipesOk task (ev_send task bits c).1 b h) h
step-PipesOk (sent_elsewhere task bits) c b h = h
step-PipesOk (receives s want cond timeout expired) c b h =
    choose-PipesOk (reconciles s want cond timeout c) _ b
      (evdev_reconcile-PipesOk (task_at s c).id (ev_turn s want cond timeout expired c).1 b h) h
step-PipesOk (watches knob i) c b h = watch-PipesOk knob i c b h
step-PipesOk (registers e w rd wr) c b h = register-PipesOk e w rd wr c b h
step-PipesOk (masks rd mask) c b h =
    choose-PipesOk b.events_bridge _ b
      (mask-PipesOk (find_slot (λ d. d.rd == rd) b.evdevs) mask c b h) h

-- Over any run of sends, from this process or another one, turns of receives and of the watchers,
-- registrations and new masks, the pipes stay well formed: a pipe has one unread byte where its
-- entry is signaled and none otherwise, and there are MAXEVDEV = 64 entries at most.
pub run-PipesOk : (es : List Event) (c : Ctl) (b : Bridge) → PipesOk b → PipesOk (run es (c, b)).1
unfolding run
run-PipesOk [] c b h = h
run-PipesOk (x ∷ es) c b h =
    run-PipesOk es (step x (c, b)).0 (step x (c, b)).1 (step-PipesOk x c b h)
