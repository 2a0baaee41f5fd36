-- ===== src/Herosapi/Runs.antt =====
-- Runs of the library's calls: which descriptors are faked.
use tnc640unix.Base.{
  ℕ, ◌<◌, ◌≤◌, ◌≡◌, refl, inl, inr, Bool, true, false, Option, none, some, List, [], ◌∷◌, ◌++◌,
  arith, if◌then◌else◌, ltb, ◌==◌, length, length-append, codes, ℤ, pos, negsuc, Bool-cases,
}
use tnc640unix.Rtos.Names.{occurs}
use tnc640unix.Herosapi.{
  Time, FdSet, Kernel, Settings, Shim, Open, by_open, by_open64, by_openat, by_open_2, by_open64_2,
  openat, memfd_create, ftruncate, fake_dev_size, close, dev_zero, pipe2, ask, max_fake, started,
  remember, listed, is_fake, is_heros_dev, sized, backed, piped, make_fake, make_fake_events,
  fake_open, open_path, do_open, mask_bridge, ioctl,
}
use tnc640unix.Herosapi.Waits.{select, ppoll}
use tnc640unix.Herosapi.Spawn.{unshare, mount, umount2, chmod, fchmodat}

-- A call of the library
pub data Operation : Type 0 where
  opens : Open → Option (List ℕ) → Operation
  ioctls : ℤ → ℕ → Option ℕ → Operation
  selects : ℕ → Option FdSet → Option FdSet → Option FdSet → Option Time → Operation
  ppolls : Option (List ℤ) → Option Time → Operation
  unshares : ℕ → Operation
  mounts : List ℕ → List ℕ → List ℕ → ℕ → Operation
  umounts : List ℕ → ℕ → Operation
  chmods : List ℕ → ℕ → Operation
  fchmodats : ℤ → List ℕ → ℕ → ℕ → Operation

unfoldable pub operate : Settings → Kernel → Operation → Shim → ℤ × Shim
unfolding do_open ioctl select ppoll unshare mount umount2 chmod fchmodat
operate v k (opens o path) s = do_open v k o path s
operate v k (ioctls fd req arg) s = ioctl v k fd req arg s
operate v k (selects nfds r w e to) s = select v k nfds r w e to s
operate v k (ppolls fds to) s = ppoll v k fds to s
operate v k (unshares flags) s = unshare v k flags s
operate v k (mounts src tgt fs flags) s = mount v k src tgt fs flags s
operate v k (umounts tgt flags) s = umount2 v k tgt flags s
operate v k (chmods path mode) s = chmod v k path mode s
operate v k (fchmodats dfd path mode flags) s = fchmodat v k dfd path mode flags s

unfoldable pub run : Settings → Kernel → List Operation → Shim → Shim
unfolding operate
run v k [] s = s
run v k (o ∷ os) s = run v k os (operate v k o s).1

-- The list of faked descriptors loses none and stays within its array.
record Grown (old new : List ℕ) : Type 0 where
  pub kept : (fd : ℕ) → listed fd old ≡ true → listed fd new ≡ true
  pub within : length old ≤ max_fake → length new ≤ max_fake

same-Grown : (l : List ℕ) → Grown l l
same-Grown l = record { kept = λ fd h. h; within = λ h. h }

listed-prefix : (fd : ℕ) (xs ys : List ℕ) → listed fd xs ≡ true → listed fd (xs ++ ys) ≡ true
listed-prefix fd [] ys h = cc
listed-prefix fd (x ∷ xs) ys h = elim (Bool-cases (x == fd)) [
  | inl same ↦ rw same refl
  | inr other ↦ let rest = listed-prefix fd xs ys (ground (arith, h, other)) in rw (other) rest
]

remember-Grown : (fd : ℤ) (s : Shim) → Grown s.fake_fds (remember fd s).fake_fds
unfolding remember
remember-Grown (negsuc n) s = same-Grown s.fake_fds
remember-Grown (pos fd) s = elim (Bool-cases (ltb (length s.fake_fds) max_fake)) [
  | inl room ↦ rw room (record {
    kept = λ x h. listed-prefix x s.fake_fds (fd ∷ []) h;
    within = λ h. omega (arith, small room, length-append s.fake_fds (fd ∷ []));
  })
  | inr full ↦ rw full (same-Grown s.fake_fds)
]
  where
    small : ltb (length s.fake_fds) max_fake ≡ true → length s.fake_fds < max_fake
    small e = ground (arith, e)

module _ (v : Settings) (k : Kernel) where
  sized-Grown : (fd : ℕ) (r : ℤ × Shim) → Grown r.1.fake_fds (sized k fd r).1.fake_fds
  unfolding sized remember
  sized-Grown fd (pos r, s) = remember-Grown (pos fd) s
  sized-Grown fd (negsuc n, s) =
      remember-Grown _ (record s { asked = dev_zero ∷ close fd ∷ s.asked })

  backed-Grown : (r : ℤ × Shim) → Grown r.1.fake_fds (backed k r).1.fake_fds
  unfolding sized remember
  backed-Grown (pos fd, s) = sized-Grown fd (ask k (ftruncate fd fake_dev_size) s)
  backed-Grown (negsuc n, s) = remember-Grown _ (record s { asked = dev_zero ∷ s.asked })

  make_fake-Grown : (s : Shim) → Grown s.fake_fds (make_fake k s).1.fake_fds
  unfolding make_fake
  make_fake-Grown s = backed-Grown (ask k memfd_create s)

  piped-Grown : (ends : ℕ × ℕ) (r : ℤ × Shim) → Grown r.1.fake_fds (piped v k ends r).1.fake_fds
  unfolding piped remember
  piped-Grown (rd, wr) (pos r, s) = elim (Bool-cases v.bridged) [
    | inl able ↦ rw able (remember-Grown (pos rd) (record s { events_wr_fd = some wr }))
    | inr off ↦ rw off (remember-Grown (pos rd) (record s { events_wr_fd = some wr }))
  ]
  piped-Grown (rd, wr) (negsuc n, s) = make_fake-Grown s

  branch-Grown :
      (l : List ℕ) (t : Bool) (x y : ℤ × Shim)
      → Grown l x.1.fake_fds
      → Grown l y.1.fake_fds
      → Grown l (if t then x else y).1.fake_fds
  branch-Grown l true x y hx hy = hx
  branch-Grown l false x y hx hy = hy

  make_fake_events-Grown : (s : Shim) → Grown s.fake_fds (make_fake_events v k s).1.fake_fds
  unfolding make_fake_events
  make_fake_events-Grown s =
      let first = piped-Grown (k.ends s.asked) (ask k pipe2 s) in
      let other = make_fake-Grown s in search (branch-Grown, first, other)

  fake_open-Grown : (path : List ℕ) (s : Shim) → Grown s.fake_fds (fake_open v k path s).1.fake_fds
  unfolding fake_open
  fake_open-Grown path s =
      branch-Grown s.fake_fds (occurs (codes "/dev/events") path) (make_fake_events v k s)
        (make_fake k s) (make_fake_events-Grown s) (make_fake-Grown s)

  open_path-Grown :
      (dfd : ℤ) (path : Option (List ℕ)) (flags mode : ℕ) (s : Shim)
      → Grown s.fake_fds (open_path v k dfd path flags mode s).1.fake_fds
  unfolding open_path
  open_path-Grown dfd none flags mode s = same-Grown s.fake_fds
  open_path-Grown dfd (some path) flags mode s =
      branch-Grown s.fake_fds (is_heros_dev (some path)) (fake_open v k path s)
        (ask k (openat dfd (some path) flags mode) s) (fake_open-Grown path s)
        (same-Grown s.fake_fds)

  do_open-Grown :
      (o : Open) (path : Option (List ℕ)) (s : Shim)
      → Grown s.fake_fds (do_open v k o path s).1.fake_fds
  unfolding do_open
  do_open-Grown (by_open flags mode) path s = open_path-Grown _ path _ _ s
  do_open-Grown (by_open64 flags mode) path s = open_path-Grown _ path _ _ s
  do_open-Grown (by_openat dfd flags mode) path s = open_path-Grown _ path _ _ s
  do_open-Grown (by_open_2 flags) path s = open_path-Grown _ path _ _ s
  do_open-Grown (by_open64_2 flags) path s = open_path-Grown _ path _ _ s

  mask_bridge-same :
      (fd : ℤ) (req : ℕ) (arg : Option ℕ) (s : Shim)
      → (mask_bridge v fd req arg s).fake_fds ≡ s.fake_fds
  mask_bridge-same (pos fd) req (some mask) s = ground arith
  mask_bridge-same (pos fd) req none s = refl
  mask_bridge-same (negsuc n) req arg s = refl

  ioctl-Grown :
      (fd : ℤ) (req : ℕ) (arg : Option ℕ) (s : Shim)
      → Grown s.fake_fds (ioctl v k fd req arg s).1.fake_fds
  unfolding ioctl
  ioctl-Grown fd req arg s = elim (Bool-cases (is_fake fd s)) [
    | inl able ↦ rw (able, mask_bridge-same fd req arg s) (same-Grown s.fake_fds)
    | inr off ↦ rw off (same-Grown s.fake_fds)
  ]

  operate-Grown : (o : Operation) (s : Shim) → Grown s.fake_fds (operate v k o s).1.fake_fds
  unfolding operate select ppoll unshare mount umount2 chmod fchmodat
  operate-Grown (opens o path) s = do_open-Grown o path s
  operate-Grown (ioctls fd req arg) s = ioctl-Grown fd req arg s
  operate-Grown (selects nfds r w e to) s = same-Grown s.fake_fds
  operate-Grown (ppolls fds to) s = same-Grown s.fake_fds
  operate-Grown (unshares flags) s = let l = same-Grown s.fake_fds in search (branch-Grown, l)
  operate-Grown (mounts src tgt fs flags) s =
      let l = same-Grown s.fake_fds in search (branch-Grown, l)
  operate-Grown (umounts tgt flags) s = let l = same-Grown s.fake_fds in search (branch-Grown, l)
  operate-Grown (chmods path mode) s = let l = same-Grown s.fake_fds in search (branch-Grown, l)
  operate-Grown (fchmodats dfd path mode flags) s =
      let l = same-Grown s.fake_fds in search (branch-Grown, l)

  run-Grown : (os : List Operation) (s : Shim) → Grown s.fake_fds (run v k os s).fake_fds
  unfolding run
  run-Grown [] s = same-Grown s.fake_fds
  run-Grown (o ∷ os) s =
      let one = operate-Grown o s in
      let rest = run-Grown os (operate v k o s).1 in
      record {
        kept = λ fd h. rest.kept fd (one.kept fd h);
        within = λ h. rest.within (one.within h);
      }

-- Over any run of the library's calls from its start, its list of faked descriptors stays within its
-- array of MAX_FAKE entries.
pub run-fake_fds :
    (v : Settings) (k : Kernel) (os : List Operation)
    → length (run v k os started).fake_fds ≤ max_fake
run-fake_fds v k os = (run-Grown v k os started).within (omega arith)

-- A descriptor that was faked once stays faked: after any run of the library's calls, and an open of
-- a file that is no HeROS device which the kernel answers with that same descriptor, an ioctl of it,
-- other than the one that sets a mask, answers 0 and never reaches the kernel.
pub stale_fake :
    (v : Settings) (k : Kernel) (os : List Operation) (dfd : ℤ) (path : List ℕ)
    (flags mode fd req : ℕ) (arg : Option ℕ) (s : Shim)
    → is_fake (pos fd) s ≡ true
    → is_heros_dev (some path) ≡ false
    → (open_path v k dfd (some path) flags mode (run v k os s)).0 ≡ pos fd
    → (req == 0x4502) ≡ false
    → let opened = (open_path v k dfd (some path) flags mode (run v k os s)).1 in
      ioctl v k (pos fd) req arg opened ≡ (pos 0, opened)
unfolding ioctl is_fake
stale_fake v k os dfd path flags mode fd req arg s fake file same other =
    let ran = run v k os s in
    let opened = (open_path v k dfd (some path) flags mode ran).1 in
    let there = (run-Grown v k os s).kept fd fake in
    let still = (open_path-Grown v k dfd (some path) flags mode ran).kept fd there in
    rw still (λ i. (pos 0, masks_not arg opened i))
  where
    masks_not : (a : Option ℕ) (t : Shim) → mask_bridge v (pos fd) req a t ≡ t
    masks_not none t = refl
    masks_not (some m) t = rw other refl
