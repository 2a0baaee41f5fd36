-- ===== src/Herosapi/Spawn.antt =====
-- `unshare`, `mount`, `umount2`, `chmod` and `fchmodat`, which can be faked, and `p_create`, which
-- starts a program of the control under FEX.
use tnc640unix.Base.{
  ℕ, ◌+◌, ◌-◌, ◌≤◌, ◌≡◌, refl, Bool, false, ◌||◌, not, Option, none, some, List, [], ◌∷◌, ◌++◌,
  arith, if◌then◌else◌, ◌==◌, length, length-append, length-take, take, drop, codes, bytes_eq, ℤ,
  pos, negsuc,
}
use mathlib.Core.Option
use tnc640unix.Rtos.Names.{starts, stored, canon_pname}
use tnc640unix.Rtos.Calls.{parse_self_pname}
use tnc640unix.Herosapi.{
  Syscall, unshare_of, mount_of, umount2_of, chmod_of, fchmodat_of, Kernel, Settings, Shim, ask,
}

abbrev fake_or : Bool → Kernel → Syscall → Shim → ℤ × Shim
fake_or faked k q s = if faked then (pos 0, s) else ask k q s

unfoldable pub unshare : Settings → Kernel → ℕ → Shim → ℤ × Shim
unshare v k flags s = fake_or v.fake_ns k (unshare_of flags) s

unfoldable pub mount : Settings → Kernel → List ℕ → List ℕ → List ℕ → ℕ → Shim → ℤ × Shim
mount v k src tgt fs flags s = fake_or v.fake_ns k (mount_of src tgt fs flags) s

unfoldable pub umount2 : Settings → Kernel → List ℕ → ℕ → Shim → ℤ × Shim
umount2 v k tgt flags s = fake_or v.fake_ns k (umount2_of tgt flags) s

-- `fake_chmod_on`
abbrev pub fake_chmod_on : Settings → Bool
fake_chmod_on v = v.fake_chmod || v.fake_ns

unfoldable pub chmod : Settings → Kernel → List ℕ → ℕ → Shim → ℤ × Shim
chmod v k path mode s = fake_or (fake_chmod_on v) k (chmod_of path mode) s

unfoldable pub fchmodat : Settings → Kernel → ℤ → List ℕ → ℕ → ℕ → Shim → ℤ × Shim
fchmodat v k dfd path mode flags s = fake_or (fake_chmod_on v) k (fchmodat_of dfd path mode flags) s

-- A process's environment
abbrev pub Environ : Type 0
Environ = List ℕ → Option (List ℕ)

-- `unsetenv` and `setenv(…, 1)`
abbrev pub set_to : List ℕ → Option (List ℕ) → Environ → Environ
set_to name v env n = if bytes_eq n name then v else env n

-- FEXInterpreter's path: HEROS_PCREATE_FEXBIN, where it is set and not empty
abbrev pub fex_path : Option (List ℕ) → List ℕ
fex_path none = codes "/usr/bin/FEXInterpreter"
fex_path (some []) = codes "/usr/bin/FEXInterpreter"
fex_path (some (x ∷ s)) = x ∷ s

-- The image's path with the prefix HEROS_PCREATE_IMGFROM replaced, cut to `imgbuf`
abbrev pub translated : Option (List ℕ) → Option (List ℕ) → List ℕ → List ℕ
translated (some from) (some to) image =
    if starts from image then take 1023 (to ++ drop (length from) image) else image
translated (some from) none image = image
translated none to image = image

abbrev pub if_any : List ℕ → List (List ℕ)
if_any [] = []
if_any (x ∷ s) = (x ∷ s) ∷ []

abbrev pub if_there : Option (List ℕ) → List (List ℕ)
if_there none = []
if_there (some a) = a ∷ []

-- The arguments in front: FEXInterpreter, the image where it is not empty, p7 where it is there
abbrev pub front_args : Environ → List ℕ → Option (List ℕ) → List (List ℕ)
front_args env image p7 =
    fex_path (env (codes "HEROS_PCREATE_FEXBIN"))
    ∷ (if_any (
          translated (env (codes "HEROS_PCREATE_IMGFROM")) (env (codes "HEROS_PCREATE_IMGTO"))
            image)
        ++ if_there p7)

-- The new program's arguments, with `image` empty where it is null; `rest` are the arguments behind
-- p7, up to their null.
unfoldable pub child_argv : Environ → List ℕ → Option (List ℕ) → List (List ℕ) → List (List ℕ)
child_argv env image p7 rest =
    let front = front_args env image p7 in front ++ take (298 - length front) rest

-- The process name that the child is given
abbrev pub proc_name : Option (List ℕ) → Option (List ℕ)
proc_name none = none
proc_name (some []) = none
proc_name (some (x ∷ s)) = if x == b'-' then none else some (x ∷ s)

-- What the child changes in its copy of the environment
unfoldable pub child_env : Option (List ℕ) → Environ → Environ
child_env p7 env = set_to (codes "HEROS_PROC_NAME") (proc_name p7) (
    set_to (codes "HEROSCALL_INJECT_FMLOAD_PROC") none (
      set_to (codes "HEROSCALL_INJECT_FMLOAD_IMG") none (
        set_to (codes "HEROSCALL_INJECT_FMLOAD_SET") none
          (set_to (codes "HEROSCALL_INJECT_FMLOAD") none env))))

-- What a call answers, stores through `pidout`, and starts.
pub record Spawned : Type 0 where
  pub result : ℤ
  pub pidout : Option ℤ
  pub child : Option (List (List ℕ) × Environ)

abbrev pub forked : Option ℕ → List (List ℕ) → Environ → Spawned
forked none argv env = record { result = negsuc 0; pidout = none; child = none }
forked (some pid) argv env = record {
  result = pos pid;
  pidout = some (pos pid);
  child = some (argv, env);
}

-- `p_create`, with HEROS_PCREATE_FEX on or off; `fork` is the child's pid, `none` where it fails.
unfoldable pub p_create :
    Bool → Option ℕ → Environ → List ℕ → Option (List ℕ) → List (List ℕ) → Spawned
unfolding child_argv child_env
p_create on fork env image p7 rest =
    if not on
    then record { result = negsuc 0; pidout = some (negsuc 0); child = none }
    else forked fork (child_argv env image p7 rest) (child_env p7 env)

if_any-length : (s : List ℕ) → length (if_any s) ≤ 1
if_any-length [] = omega arith
if_any-length (x ∷ s) = omega arith

if_there-length : (o : Option (List ℕ)) → length (if_there o) ≤ 1
if_there-length none = omega arith
if_there-length (some a) = omega arith

filled-length :
    (n : ℕ) (front rest : List (List ℕ))
    → length front ≤ n
    → length (front ++ take (n - length front) rest) ≤ n
filled-length n front rest small = omega (
  arith,
  small,
  length-append front (take (n - length front) rest),
  length-take (n - length front) rest,
)

front_args-length :
    (env : Environ) (image : List ℕ) (p7 : Option (List ℕ)) → length (front_args env image p7) ≤ 3
front_args-length env image p7 =
    let named =
      translated (env (codes "HEROS_PCREATE_IMGFROM")) (env (codes "HEROS_PCREATE_IMGTO")) image in
    omega
      (arith, length-append (if_any named) (if_there p7), if_any-length named, if_there-length p7)

-- However many arguments p_create is given, those of the child and their null fit its array of 300.
pub child_argv-fits :
    (env : Environ) (image : List ℕ) (p7 : Option (List ℕ)) (rest : List (List ℕ))
    → length (child_argv env image p7 rest) + 1 ≤ 300
unfolding child_argv
child_argv-fits env image p7 rest =
    let front = front_args env image p7 in
    omega (arith, filled-length 298 front rest (omega (arith, front_args-length env image p7)))

-- A child that is given a name registers it, under its canonical form and whatever arguments it has;
-- and its environment has none of the variables that inject processes.
pub child_knows_name :
    (env : Environ) (x : ℕ) (s : List ℕ) (args : List (List ℕ))
    → (x == b'-') ≡ false
    → let its = child_env (some (x ∷ s)) env in
      (parse_self_pname (Option.get_or (its (codes "HEROS_PROC_NAME")) []) args
        ≡ canon_pname (some (stored (x ∷ s))))
      × ((its (codes "HEROSCALL_INJECT_FMLOAD") ≡ none)
          × (its (codes "HEROSCALL_INJECT_FMLOAD_SET") ≡ none))
unfolding child_env parse_self_pname
child_knows_name env x s args named = (rw named refl, (refl, refl))
