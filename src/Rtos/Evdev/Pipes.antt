-- ===== src/Rtos/Evdev/Pipes.antt =====
-- The pipe of a registered task tells whether an event pends.
use tnc640unix.Base.{
  ℕ, ◌<◌, ◌≡◌, ◌≢◌, refl, ap, ◌∙◌, Bool, true, ◌&&◌, Option, none, some, arith, if◌then◌else◌, ◌==◌,
  ltb, bit_and, bit_or, length, get_elem?, get_or-set_self, get_elem?-eq-get_or, get_elem?-lt, ℤ,
  pos,
}
use tnc640unix.Rtos.Table.{find_slot, find_slot-set, find_slot-some}
use tnc640unix.Rtos.State.{Ctl, no_task}
use tnc640unix.Rtos.Tasks.{task_slot, task_at}
use tnc640unix.Rtos.Events.{raise, ev_send}
use tnc640unix.Rtos.Events.Delivery.{word, task_at-put, bit_and-ne-zero}
use tnc640unix.Rtos.Evdev.{
  Evdev, Bridge, dev_mask, pends, wanted, poke, evdev_reconcile_locked, evdev_at, put_evdev,
  reconcile_at, evdev_reconcile, ev_send_bridged, evdev_watch, no_evdev, settle,
}

-- What poll says of the pipe
abbrev pub readable : Evdev → Bool
readable d = ltb 0 d.unread

-- The flag of an entry is the state of its pipe, which holds one byte at most.
abbrev pub Coherent : Evdev → Type 0
Coherent d = d.unread ≡ (if d.signaled then 1 else 0)

pub poke-Coherent : (want : Bool) (d : Evdev) → Coherent d → Coherent (poke want d)
unfolding poke
poke-Coherent want d h = ground arith

poke-readable : (want : Bool) (d : Evdev) → Coherent d → readable (poke want d) ≡ want
unfolding poke
poke-readable want d h = ground arith

pub reconcile-Coherent :
    (sib : Option Bool) (c : Ctl) (d : Evdev)
    → Coherent d
    → Coherent (evdev_reconcile_locked sib c d)
unfolding evdev_reconcile_locked
reconcile-Coherent sib c d h =
    elim (task_slot d.task c)
      as (λ o. Coherent (elim o [ none ↦ d | some s ↦ poke (wanted sib (dev_mask d) s c) d ])) [
        | none ↦ h
        | some s ↦ poke-Coherent (wanted sib (dev_mask d) s c) d h
      ]

pub reconcile_readable :
    (sib : Option Bool) (c : Ctl) (d : Evdev) (s : ℕ)
    → task_slot d.task c ≡ some s
    → Coherent d
    → readable (evdev_reconcile_locked sib c d) ≡ wanted sib (dev_mask d) s c
unfolding evdev_reconcile_locked
reconcile_readable sib c d s at h =
    rw (at, evdev_reconcile_locked) (poke-readable (wanted sib (dev_mask d) s c) d h)

wanted-pends :
    (sib : Option Bool) (mask s : ℕ) (c : Ctl)
    → pends mask (task_at s c) ≡ true
    → wanted sib mask s c ≡ true
unfolding wanted
wanted-pends sib mask s c h = rw h

task_slot-raise :
    (task s bits : ℕ) (c : Ctl)
    → s < length c.tasks
    → task_slot task c ≡ some s
    → task_slot task (raise s bits c) ≡ some s
task_slot-raise task s bits c inside at =
    find_slot-set (λ t. t.used && t.id == task) c.tasks s
      (record (task_at s c) { events = bit_or (task_at s c).events bits }) (task_at s c)
      (get_elem?-eq-get_or c.tasks s no_task inside) refl
    ∙ at

pends-raise :
    (s bits mask : ℕ) (c : Ctl)
    → s < length c.tasks
    → bit_and bits mask ≢ 0
    → pends mask (task_at s (raise s bits c)) ≡ true
pends-raise s bits mask c inside ne =
    rw (task_at-put s (record (task_at s c) { events = bit_or (word s c) bits }) c inside)
      (ground (arith, bit_and-ne-zero (word s c) bits mask ne))

-- The entry of a task that an event of its mask is raised for
reconciled :
    (sib : Option Bool) (task s bits : ℕ) (c : Ctl) (d : Evdev)
    → d.task ≡ task
    → task_slot task c ≡ some s
    → s < length c.tasks
    → Coherent d
    → bit_and bits (dev_mask d) ≢ 0
    → readable (evdev_reconcile_locked sib (raise s bits c) d) ≡ true
reconciled sib task s bits c d own at inside h ne =
    reconcile_readable sib (raise s bits c) d s (rw own (task_slot-raise task s bits c inside at)) h
    ∙ wanted-pends sib (dev_mask d) s (raise s bits c) (pends-raise s bits (dev_mask d) c inside ne)

evdev_at-put :
    (i : ℕ) (d : Evdev) (b : Bridge) → i < length b.evdevs → evdev_at i (put_evdev i d b) ≡ d
evdev_at-put i d b h = get_or-set_self b.evdevs i d no_evdev h

-- The entry that a scan for a task finds
record Found (task i : ℕ) (b : Bridge) : Type 0 where
  inside : i < length b.evdevs
  own : (evdev_at i b).task ≡ task
  there : get_elem? b.evdevs i ≡ some (evdev_at i b)

found :
    (task i : ℕ) (b : Bridge)
    → find_slot (λ (d : Evdev). d.task == task) b.evdevs ≡ some i
    → Found task i b
found task i b h =
    let (x, at, hit) = find_slot-some (λ (d : Evdev). d.task == task) b.evdevs i h in
    let inside = get_elem?-lt b.evdevs i at in
    let there = get_elem?-eq-get_or b.evdevs i no_evdev inside in
    let same : evdev_at i b ≡ x = cc in
    record { inside = inside; own = ap (λ (d : Evdev). d.task) same ∙ ground arith; there = there }

reconciled_at :
    (c : Ctl) (i : ℕ) (b : Bridge)
    → i < length b.evdevs
    → evdev_at i (reconcile_at (some i) c b)
      ≡ evdev_reconcile_locked b.evdev_sibling c (evdev_at i b)
reconciled_at c i b h = evdev_at-put i (evdev_reconcile_locked b.evdev_sibling c (evdev_at i b)) b h

bridged :
    (task s bits i : ℕ) (c : Ctl) (b : Bridge)
    → b.events_bridge ≡ true
    → task_slot task c ≡ some s
    → find_slot (λ (d : Evdev). d.task == task) b.evdevs ≡ some i
    → ev_send_bridged task bits (c, b)
      ≡ (pos 0, (raise s bits c, reconcile_at (some i) (raise s bits c) b))
unfolding ev_send_bridged ev_send evdev_reconcile
bridged task s bits i c b on at reg = rw (at, ev_send) (simp (on, reg))

watched :
    (knob : Bool) (s i : ℕ) (c : Ctl) (b : Bridge)
    → task_slot (evdev_at i b).task c ≡ some s
    → evdev_watch knob i c b
      ≡ reconcile_at (some i) c (record b { evdev_sibling = settle knob b.evdev_sibling })
unfolding evdev_watch
watched knob s i c b at = rw (at, evdev_watch) refl

-- An event that the mask of a registered pipe selects makes the pipe readable, and with it the
-- task's select or ppoll returns: by the send itself where the sender is a thread of the same
-- process, and else by the next turn of the watcher, whether siblings are looked at or not.
pub send_readable :
    (task s bits i : ℕ) (knob : Bool) (c : Ctl) (b : Bridge)
    → b.events_bridge ≡ true
    → task_slot task c ≡ some s
    → s < length c.tasks
    → find_slot (λ (d : Evdev). d.task == task) b.evdevs ≡ some i
    → Coherent (evdev_at i b)
    → bit_and bits (dev_mask (evdev_at i b)) ≢ 0
    → (readable (evdev_at i (ev_send_bridged task bits (c, b)).1.1) ≡ true)
      × (readable (evdev_at i (evdev_watch knob i (ev_send task bits c).1 b)) ≡ true)
unfolding ev_send
send_readable task s bits i knob c b on at inside reg h ne =
    let f = found task i b reg in
    let d = raise s bits c in
    let ready =
      λ (sib : Option Bool). reconciled sib task s bits c (evdev_at i b) f.own at inside h ne in
    let local : (ev_send_bridged task bits (c, b)).1.1 ≡ reconcile_at (some i) d b =
      ap (λ (r : ℤ × (Ctl × Bridge)). r.1.1) (bridged task s bits i c b on at reg) in
    let sent : (ev_send task bits c).1 ≡ d = rw (at, ev_send) refl in
    let settled = record b { evdev_sibling = settle knob b.evdev_sibling } in
    (
      rw local (rw (reconciled_at d i b f.inside) (ready b.evdev_sibling)),
      rw sent (
          rw (watched knob s i d b (rw f.own (task_slot-raise task s bits c inside at)))
            (rw (reconciled_at d i settled f.inside) (ready settled.evdev_sibling))),
    )
