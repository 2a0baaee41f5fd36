-- ===== src/Herosapi/Tests.antt =====
-- The library at a concrete kernel.
use tnc640unix.Base.{
  ◌<◌, ◌+◌, ◌*◌, ◌≡◌, refl, true, false, none, some, List, [], ◌∷◌, arith, ◌==◌, codes, ℤ, pos,
}
use tnc640unix.Rtos.Names.{occurs, starts}
use tnc640unix.Herosapi.{
  Syscall, memfd_create, openat, pipe2, to_register, to_setmask, newselect, Time, FdSet, Kernel,
  Settings, Shim, started, by_open, at_fdcwd, open_path, do_open, is_heros_dev, is_fake, ioctl,
}
use tnc640unix.Herosapi.Waits.{select, select_capped, span, NoLonger}
use tnc640unix.Herosapi.Spawn.{Environ}
use tnc640unix.Herosapi.Devices.{events_masked}
use tnc640unix.Herosapi.Runs.{Operation, opens, run, stale_fake}

abbrev answer_of : Syscall → ℤ
answer_of memfd_create = pos 5
answer_of (openat dfd path flags mode) = pos 5
answer_of q = pos 0

-- A kernel that answers 5 to each memfd and each open, 0 to all else, and makes the pipe 7, 8
abbrev host : Kernel
host = record { answer = λ asked q. answer_of q; ends = λ asked. (7, 8) }

abbrev with_pipe : Settings
with_pipe = record {
  events_pipe = true;
  bridged = true;
  sel_cap_ms = some 50;
  fake_ns = false;
  fake_chmod = false;
}

events_masked_example :
    let opened = do_open with_pipe host (by_open 2 0) (some (codes "/dev/events")) started in
    let after = ioctl with_pipe host opened.0 0x4502 (some 6) opened.1 in
    (opened.0 ≡ pos 7)
    × ((after.0 ≡ pos 0) × (after.1.asked ≡ to_setmask 7 6 ∷ to_register 7 8 ∷ pipe2 ∷ []))
unfolding occurs starts
events_masked_example =
    events_masked with_pipe host (by_open 2 0) (codes "/dev/events") started 0 6 refl refl refl
      (omega arith) refl

abbrev watching : Shim
watching = record started { fake_fds = 7 ∷ [] }

abbrev only_seven : FdSet
only_seven fd = fd == 7

select_capped_example :
    (t : Time) × (((select with_pipe host 8
          (some only_seven)
          none
          none
          (some (2, 0))
          watching).1.asked
        ≡ newselect 8 (some only_seven) none none (some t) ∷ [])
      × ((span 1000 t < (50 + 1) * 1000) × NoLonger 1000 t (some (2, 0))))
unfolding is_fake
select_capped_example =
    select_capped with_pipe host 50 8 7 only_seven none none (some (2, 0)) watching refl
      (omega arith) (omega arith) refl (omega arith) refl

abbrev faked_five : Shim
faked_five = record started { fake_fds = 5 ∷ [] }

abbrev one_open : List Operation
one_open = opens (by_open 0 0) (some (codes "/tmp/y")) ∷ []

stale_fake_example :
    let opened =
      (open_path with_pipe host at_fdcwd
        (some (codes "/tmp/x"))
        0
        0
        (run with_pipe host one_open faked_five)).1 in
    ioctl with_pipe host (pos 5) 0x5401 none opened ≡ (pos 0, opened)
unfolding is_fake is_heros_dev open_path run starts
stale_fake_example =
    stale_fake with_pipe host one_open at_fdcwd (codes "/tmp/x") 0 0 5 0x5401 none faked_five refl
      refl refl refl

abbrev no_variables : Environ
no_variables name = none
