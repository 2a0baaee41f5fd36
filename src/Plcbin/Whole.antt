-- ===== src/Plcbin/Whole.antt =====
-- A client's loop of PLCBin_ReadBinCode with a buffer of `n` bytes, up to the answer 0.
use tnc640unix.Base.{
  ℕ, subst, zero, suc, ◌+◌, ◌-◌, ◌^◌, ◌≤◌, ◌<◌, ◌≡◌, ◌≢◌, refl, sym, ap, ◌∙◌, inl, inr, false, List,
  [], ◌++◌, arith, if◌then◌else◌, ◌==◌, Bool-cases, min, length, take, drop, pos,
}
use tnc640unix.Plcbin.Code.{Handle, read_bin_code_info, read_more, plcbin_read_bin_code}
use tnc640unix.Plcbin.Calls.{
  At, rest, advanced, chunk, finish, mid_call, sought, first_call, rest_split, advanced-At,
}

-- A call's answer, and what the rest of the loop makes of its handle
abbrev joined : (Handle → List ℕ × Handle) → ℕ × List ℕ × Handle → List ℕ × Handle
joined go_on (k, got, g) =
    let (more, last) = go_on g in if k == 0 then ([], g) else (got ++ more, last)

-- The bytes read, and the handle behind the last call; no more than `fuel` calls
unfoldable pub read_all : ℕ → ℕ → Handle → List ℕ × Handle
unfolding plcbin_read_bin_code
read_all zero n h = ([], h)
read_all (suc fuel) n h = joined (read_all fuel n) (plcbin_read_bin_code n h)

-- What a client has read and the handle that it is left with
record Done (p : ℕ) (h : Handle) (r : List ℕ × Handle) : Type 0 where
  bytes : r.0 ≡ rest p h
  over : r.1.bin_off ≡ 0
  restarts : r.1.bin_pos ≡ 0

-- A turn of the loop, where the calls behind it do what they should
turn :
    (fuel n p : ℕ) (h : Handle)
    → At p h
    → 0 < n
    → n < 2 ^ 63
    → ((w : ℕ)
        → 0 < w
        → w ≤ h.bin_size - p
        → Done (p + w) (advanced w h) (read_all fuel n (advanced w h)))
    → Done p h (joined (read_all fuel n) (read_more n h))
turn fuel n p h a room fits go_on = elim (Bool-cases (p == h.bin_size)) [
  | inl over ↦
      let none_left : h.bin_size - p ≡ 0 = ground arith in
      subst (λ t. Done p h (joined (read_all fuel n) t)) (sym (finish n p h a fits (ground arith)))
        (record {
          bytes = ap (λ k. take k (drop (h.bin_off + p) h.file.bytes)) (sym none_left);
          over = refl;
          restarts = refl;
        })
  | inr more ↦
      let w = min n (h.bin_size - p) in
      let some_left : 0 < w = ground (arith, a.within) in
      let nonzero : (w == 0) ≡ false = ground arith in
      let d = go_on w some_left (omega arith) in
      let got = take w (drop (h.bin_off + p) h.file.bytes) in
      subst (λ t. Done p h (joined (read_all fuel n) t)) (sym (chunk n p w h a fits refl some_left))
        (rw nonzero (record {
          bytes = ap (λ l. got ++ l) d.bytes ∙ rest_split p w h (omega arith);
          over = d.over;
          restarts = d.restarts;
        }))
]

read_on :
    (fuel n p : ℕ) (h : Handle)
    → At p h
    → p ≢ 0
    → 0 < n
    → n < 2 ^ 63
    → h.bin_size - p < fuel
    → Done p h (read_all fuel n h)
unfolding read_all
read_on zero n p h a ne room fits enough = absurd (omega arith)
read_on (suc fuel) n p h a ne room fits enough =
    subst (λ t. Done p h (joined (read_all fuel n) t)) (sym (mid_call n p h a ne))
      (turn fuel n p h a room fits λ w some_left le.
        read_on fuel n (p + w) (advanced w h) (advanced-At p w h a le) (λ e. omega arith) room fits
          (omega arith))

-- Where a handle's code section is found, lies in the file and is shorter than 2^31, and its cursor
-- is 0: a client that calls PLCBin_ReadBinCode again and again, with a buffer of any size but 0, gets
-- the answer 0 after as many calls as the section has bytes, and one more, at most; the bytes that
-- it has then read are the whole section, and the handle is left for a new start.
pub read_all-whole :
    (n fuel : ℕ) (h g : Handle)
    → read_bin_code_info h ≡ (pos 0, g)
    → g.bin_off ≢ 0
    → g.bin_off < 2 ^ 31
    → g.bin_size < 2 ^ 31
    → g.bin_pos ≡ 0
    → g.bin_off + g.bin_size ≤ length g.file.bytes
    → 0 < n
    → n < 2 ^ 63
    → g.bin_size < fuel
    → let (read, last) = read_all fuel n h in
      (read ≡ take g.bin_size (drop g.bin_off g.file.bytes))
      × (last.bin_off ≡ 0)
      × (last.bin_pos ≡ 0)
unfolding read_all
read_all-whole n zero h g info known near small fresh whole room fits enough = absurd (omega arith)
read_all-whole n (suc fuel) h g info known near small fresh whole room fits enough =
    let a : At 0 (sought g) = record {
      known = known;
      near = near;
      small = small;
      here = fresh;
      within = omega arith;
      stands = omega arith;
      whole = whole;
    } in
    let d : Done 0 (sought g) (joined (read_all fuel n) (plcbin_read_bin_code n h)) =
      subst (λ t. Done 0 (sought g) (joined (read_all fuel n) t)) (sym (first_call n h g info a))
        (turn fuel n 0 (sought g) a room fits λ w some_left le.
          read_on fuel n (0 + w) (advanced w (sought g)) (advanced-At 0 w (sought g) a le)
            (λ e. omega arith) room fits (omega arith)) in
    let size : g.bin_size - 0 ≡ g.bin_size = omega arith in
    let start : g.bin_off + 0 ≡ g.bin_off = omega arith in
    (
      d.bytes
          ∙ ap (λ k. take k (drop (g.bin_off + 0) g.file.bytes)) size
          ∙ ap (λ k. take g.bin_size (drop k g.file.bytes)) start,
      d.over,
      d.restarts,
    )
