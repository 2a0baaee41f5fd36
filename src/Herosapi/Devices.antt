-- ===== src/Herosapi/Devices.antt =====
-- What a client of a faked device sees.
use tnc640unix.Base.{
  ℕ, ◌<◌, ◌≡◌, refl, ◌∙◌, true, some, List, [], ◌∷◌, ◌++◌, arith, length, codes, ℤ, pos,
}
use tnc640unix.Rtos.Names.{occurs}
use tnc640unix.Herosapi.{
  Kernel, Settings, Shim, Open, pipe2, to_register, to_setmask, by_open, by_open64, by_openat,
  by_open_2, by_open64_2, listed, is_fake, max_fake, remember, is_heros_dev, open_path, do_open,
  fake_open, make_fake_events, ioctl,
}

pub listed-append : (fd : ℕ) (fds : List ℕ) → listed fd (fds ++ (fd ∷ [])) ≡ true
listed-append fd [] = ground arith
listed-append fd (x ∷ fds) = grind (arith, listed-append fd fds)

-- The path of the event device
abbrev pub IsEvents : List ℕ → Type 0
IsEvents path = occurs (codes "/dev/events") path ≡ true

events-is_heros_dev : (path : List ℕ) → IsEvents path → is_heros_dev (some path) ≡ true
unfolding is_heros_dev
events-is_heros_dev path p = ground (arith, p)

open_path-events :
    (v : Settings) (k : Kernel) (dfd : ℤ) (path : List ℕ) (flags mode : ℕ) (s : Shim)
    → IsEvents path
    → open_path v k dfd (some path) flags mode s ≡ make_fake_events v k s
unfolding open_path fake_open
open_path-events v k dfd path flags mode s p = rw (events-is_heros_dev path p, p) refl

do_open-events :
    (v : Settings) (k : Kernel) (o : Open) (path : List ℕ) (s : Shim)
    → IsEvents path
    → do_open v k o (some path) s ≡ make_fake_events v k s
unfolding do_open
do_open-events v k (by_open flags mode) path s p = open_path-events v k _ path _ _ s p
do_open-events v k (by_open64 flags mode) path s p = open_path-events v k _ path _ _ s p
do_open-events v k (by_openat dfd flags mode) path s p = open_path-events v k _ path _ _ s p
do_open-events v k (by_open_2 flags) path s p = open_path-events v k _ path _ _ s p
do_open-events v k (by_open64_2 flags) path s p = open_path-events v k _ path _ _ s p

remember-fits :
    (fd : ℕ) (s : Shim)
    → length s.fake_fds < max_fake
    → remember (pos fd) s ≡ record s { fake_fds = s.fake_fds ++ (fd ∷ []) }
unfolding remember
remember-fits fd s room = ground (arith, room)

-- The library behind an open of /dev/events: the pipe's read end is remembered and registered.
abbrev piped_shim : Kernel → Shim → Shim
piped_shim k s =
    let (rd, wr) = k.ends s.asked in
    record {
      fake_fds = s.fake_fds ++ (rd ∷ []);
      events_wr_fd = some wr;
      asked = to_register rd wr ∷ pipe2 ∷ s.asked;
    }

make_fake_events-piped :
    (v : Settings) (k : Kernel) (s : Shim) (r : ℕ)
    → v.events_pipe ≡ true
    → v.bridged ≡ true
    → length s.fake_fds < max_fake
    → k.answer s.asked pipe2 ≡ pos r
    → make_fake_events v k s ≡ (pos (k.ends s.asked).0, piped_shim k s)
unfolding make_fake_events
make_fake_events-piped v k s r on there room made =
    let (rd, wr) = k.ends s.asked in
    let fits =
      remember-fits rd (record s { events_wr_fd = some wr; asked = pipe2 ∷ s.asked }) room in
    rw (on, made, fits, there) refl

ioctl-masks :
    (v : Settings) (k : Kernel) (mask : ℕ) (s : Shim)
    → v.bridged ≡ true
    → let rd = (k.ends s.asked).0 in
      let after = ioctl v k (pos rd) 0x4502 (some mask) (piped_shim k s) in
      (after.0 ≡ pos 0) × (after.1.asked ≡ to_setmask rd mask ∷ (piped_shim k s).asked)
unfolding ioctl is_fake
ioctl-masks v k mask s there = rw (listed-append (k.ends s.asked).0 s.fake_fds, there) (refl, refl)

-- An open of /dev/events by any of the five calls, with HEROS_EVENTS_PIPE on, the bridge there, room
-- in the list and a pipe made, answers the pipe's read end and registers both ends with the bridge;
-- an ioctl of it that sets the mask then answers 0 and hands the bridge that mask. The kernel is
-- asked for the pipe alone.
pub events_masked :
    (v : Settings) (k : Kernel) (o : Open) (path : List ℕ) (s : Shim) (r mask : ℕ)
    → IsEvents path
    → v.events_pipe ≡ true
    → v.bridged ≡ true
    → length s.fake_fds < max_fake
    → k.answer s.asked pipe2 ≡ pos r
    → let ends = k.ends s.asked in
      let opened = do_open v k o (some path) s in
      let after = ioctl v k opened.0 0x4502 (some mask) opened.1 in
      (opened.0 ≡ pos ends.0)
      × ((after.0 ≡ pos 0)
          × (after.1.asked ≡ to_setmask ends.0 mask ∷ to_register ends.0 ends.1 ∷ pipe2 ∷ s.asked))
events_masked v k o path s r mask p on there room made =
    rw (do_open-events v k o path s p ∙ make_fake_events-piped v k s r on there room made)
      (refl, ioctl-masks v k mask s there)
