-- ===== src/Herosapi.antt =====
-- emulator/herosapi_shim.c: the preloaded library that stands in for the devices of the HeROS
-- kernel. Its raw system calls are requests that the host's kernel answers; `Kernel` is that
-- kernel, a parameter, which may answer by all that it was asked before.
pub mod Waits
pub mod Spawn
pub mod Devices
pub mod Runs
pub mod Tests
use tnc640unix.Base.{
  ℕ, Bool, true, false, ◌&&◌, ◌||◌, not, Option, none, some, List, [], ◌∷◌, ◌++◌, if◌then◌else◌,
  ◌==◌, ltb, length, codes, bit_or, ℤ, pos, negsuc,
}
use tnc640unix.Rtos.Names.{occurs}

-- A set of descriptors, as FD_ISSET tests it
abbrev pub FdSet : Type 0
FdSet = ℕ → Bool

-- Seconds, and the fraction in the unit of the call
abbrev pub Time : Type 0
Time = ℕ × ℕ

-- What the library asks of the host's kernel; the last two are its calls of the wake bridge.
pub data Syscall : Type 0 where
  memfd_create : Syscall
  ftruncate : ℕ → ℕ → Syscall
  close : ℕ → Syscall
  dev_zero : Syscall
  pipe2 : Syscall
  openat : ℤ → Option (List ℕ) → ℕ → ℕ → Syscall
  ioctl_of : ℤ → ℕ → Option ℕ → Syscall
  newselect : ℕ → Option FdSet → Option FdSet → Option FdSet → Option Time → Syscall
  ppoll_of : Option (List ℤ) → Option Time → Syscall
  unshare_of : ℕ → Syscall
  mount_of : List ℕ → List ℕ → List ℕ → ℕ → Syscall
  umount2_of : List ℕ → ℕ → Syscall
  chmod_of : List ℕ → ℕ → Syscall
  fchmodat_of : ℤ → List ℕ → ℕ → ℕ → Syscall
  to_register : ℕ → ℕ → Syscall
  to_setmask : ℕ → ℕ → Syscall

-- The answers, given the requests before, the last one first; and the two ends of a new pipe
pub record Kernel : Type 0 where
  pub answer : List Syscall → Syscall → ℤ
  pub ends : List Syscall → ℕ × ℕ

-- The environment variables, and whether heros_rtos is preloaded too. `none` is a cap that is off.
pub record Settings : Type 0 where
  pub events_pipe : Bool
  pub bridged : Bool
  pub sel_cap_ms : Option ℕ
  pub fake_ns : Bool
  pub fake_chmod : Bool

-- fake_fds[0..fake_n), events_wr_fd, and the requests so far
pub record Shim : Type 0 where
  pub fake_fds : List ℕ
  pub events_wr_fd : Option ℕ
  pub asked : List Syscall

abbrev pub started : Shim
started = record { fake_fds = []; events_wr_fd = none; asked = [] }

-- MAX_FAKE and FAKE_DEV_SIZE
abbrev pub max_fake : ℕ
max_fake = 64

abbrev pub fake_dev_size : ℕ
fake_dev_size = 4194304

abbrev pub ask : Kernel → Syscall → Shim → ℤ × Shim
ask k q s = (k.answer s.asked q, record s { asked = q ∷ s.asked })

abbrev pub tell : Syscall → Shim → Shim
tell q s = record s { asked = q ∷ s.asked }

unfoldable pub is_heros_dev : Option (List ℕ) → Bool
unfolding occurs
is_heros_dev none = false
is_heros_dev (some p) =
    occurs (codes "herosapi") p || (occurs (codes "/dev/events") p || occurs (codes "JHncmem") p)

-- `remember`
unfoldable pub remember : ℤ → Shim → Shim
remember (pos fd) s =
    if ltb (length s.fake_fds) max_fake then record s { fake_fds = s.fake_fds ++ (fd ∷ []) } else s
remember (negsuc n) s = s

abbrev pub listed : ℕ → List ℕ → Bool
listed fd [] = false
listed fd (x ∷ xs) = x == fd || listed fd xs

-- `is_fake`
unfoldable pub is_fake : ℤ → Shim → Bool
is_fake (pos fd) s = listed fd s.fake_fds
is_fake (negsuc n) s = false

-- The end of `make_fake`: the descriptor is remembered.
abbrev pub faked : ℤ × Shim → ℤ × Shim
unfolding remember
faked (fd, s) = (fd, remember fd s)

abbrev pub sized : Kernel → ℕ → ℤ × Shim → ℤ × Shim
unfolding remember
sized k fd (pos r, s) = faked (pos fd, s)
sized k fd (negsuc n, s) = faked (ask k dev_zero (ask k (close fd) s).1)

abbrev pub backed : Kernel → ℤ × Shim → ℤ × Shim
backed k (pos fd, s) = sized k fd (ask k (ftruncate fd fake_dev_size) s)
backed k (negsuc n, s) = faked (ask k dev_zero s)

-- `make_fake`: a sized memfd, or /dev/zero where that fails
unfoldable pub make_fake : Kernel → Shim → ℤ × Shim
unfolding remember
make_fake k s = backed k (ask k memfd_create s)

abbrev pub piped : Settings → Kernel → ℕ × ℕ → ℤ × Shim → ℤ × Shim
unfolding remember make_fake
piped v k (rd, wr) (pos r, s) =
    let kept = remember (pos rd) (record s { events_wr_fd = some wr }) in
    (pos rd, if v.bridged then tell (to_register rd wr) kept else kept)
piped v k (rd, wr) (negsuc n, s) = make_fake k s

-- `make_fake_events`
unfoldable pub make_fake_events : Settings → Kernel → Shim → ℤ × Shim
unfolding make_fake remember
make_fake_events v k s =
    if v.events_pipe then piped v k (k.ends s.asked) (ask k pipe2 s) else make_fake k s

-- `fake_open`
unfoldable pub fake_open : Settings → Kernel → List ℕ → Shim → ℤ × Shim
unfolding make_fake_events make_fake occurs
fake_open v k path s =
    if occurs (codes "/dev/events") path then make_fake_events v k s else make_fake k s

-- The body of every open
unfoldable pub open_path : Settings → Kernel → ℤ → Option (List ℕ) → ℕ → ℕ → Shim → ℤ × Shim
unfolding is_heros_dev fake_open
open_path v k dfd none flags mode s = ask k (openat dfd none flags mode) s
open_path v k dfd (some path) flags mode s =
    if is_heros_dev (some path)
    then fake_open v k path s
    else ask k (openat dfd (some path) flags mode) s

-- AT_FDCWD and O_LARGEFILE
abbrev pub at_fdcwd : ℤ
at_fdcwd = negsuc 99

abbrev pub o_largefile : ℕ
o_largefile = 0x8000

-- The five opens: `open`, `open64`, `openat`, `__open_2`, `__open64_2`
pub data Open : Type 0 where
  by_open : ℕ → ℕ → Open
  by_open64 : ℕ → ℕ → Open
  by_openat : ℤ → ℕ → ℕ → Open
  by_open_2 : ℕ → Open
  by_open64_2 : ℕ → Open

unfoldable pub do_open : Settings → Kernel → Open → Option (List ℕ) → Shim → ℤ × Shim
unfolding open_path
do_open v k (by_open flags mode) path s = open_path v k at_fdcwd path flags mode s
do_open v k (by_open64 flags mode) path s =
    open_path v k at_fdcwd path (bit_or flags o_largefile) mode s
do_open v k (by_openat dfd flags mode) path s = open_path v k dfd path flags mode s
do_open v k (by_open_2 flags) path s = open_path v k at_fdcwd path flags 0 s
do_open v k (by_open64_2 flags) path s = open_path v k at_fdcwd path (bit_or flags o_largefile) 0 s

-- The ioctl that sets the mask of /dev/events, where its argument is there and the bridge is
abbrev pub mask_bridge : Settings → ℤ → ℕ → Option ℕ → Shim → Shim
mask_bridge v (pos fd) req (some mask) s =
    if req == 0x4502 && v.bridged then tell (to_setmask fd mask) s else s
mask_bridge v fd req arg s = s

-- `ioctl`; the argument is the word that it points to.
unfoldable pub ioctl : Settings → Kernel → ℤ → ℕ → Option ℕ → Shim → ℤ × Shim
unfolding is_fake
ioctl v k fd req arg s =
    if is_fake fd s then (pos 0, mask_bridge v fd req arg s) else ask k (ioctl_of fd req arg) s
