-- ===== src/Rtos/Regions.antt =====
-- Named shared regions: reg_ident.
use tnc640unix.Base.{
  ℕ, ◌+◌, ◌-◌, ◌%◌, ◌^◌, ◌<◌, ◌≤◌, ◌≡◌, refl, sym, ap, subst, ◌∙◌, inl, inr, Bool, true, false,
  ◌&&◌, Option, none, some, List, arith, length, length-take, get_or, get_or-set_self, get_elem?,
  get_elem?-lt, get_elem?-set_self, set, take, take_of_le, bytes_eq, bytes_eq→eq, bytes_eq_refl,
  Option-cases,
}
use tnc640unix.Rtos.Table.{find_slot, find_slot-some, find_slot-none, find_slot-intro}
use tnc640unix.Rtos.Table.Ids.{free_slot, free_slot-some, set-cases}
use tnc640unix.Rtos.State.{Region, Ctl, no_region}

abbrev pub is_used : Region → Bool
is_used r = r.used

abbrev pub region_id : Region → ℕ
region_id r = r.id

abbrev pub region_at : ℕ → Ctl → Region
region_at s c = get_or c.regs s no_region

-- REGION_BYTES
abbrev pub region_bytes : ℕ
region_bytes = 67108864

-- The characters that `name[20]` holds before its NUL
abbrev pub region_chars : ℕ
region_chars = 19

-- `used && !strcmp(regs[i].name, name)`: the whole name, unlike the 31 characters of other names
abbrev pub has_name : List ℕ → Region → Bool
has_name nm r = r.used && bytes_eq r.name nm

abbrev pub new_region : List ℕ → ℕ → Region
new_region nm id = record { used = true; id = id; name = take region_chars nm; size = region_bytes }

-- A region is made in a free slot; -2 if there is none.
unfoldable pub reg_fill : List ℕ → Ctl → Option ℕ → ℕ × Ctl
reg_fill nm c none = (2 ^ 32 - 2, c)
reg_fill nm c (some s) = (
  c.next_reg,
  record c { next_reg = (c.next_reg + 1) % 2 ^ 32; regs = set c.regs s (new_region nm c.next_reg) },
)

unfoldable pub reg_ident_at : List ℕ → Ctl → Option ℕ → ℕ × Ctl
unfolding reg_fill
reg_ident_at nm c none = reg_fill nm c (free_slot is_used region_id c.regs)
reg_ident_at nm c (some s) = ((region_at s c).id, c)

-- `reg_ident`
unfoldable pub reg_ident : List ℕ → Ctl → ℕ × Ctl
unfolding reg_ident_at
reg_ident nm c = reg_ident_at nm c (find_slot (has_name nm) c.regs)

-- The state behind the creation of a region.
abbrev made : List ℕ → ℕ → Ctl → Ctl
made nm s c = record c {
  next_reg = (c.next_reg + 1) % 2 ^ 32;
  regs = set c.regs s (new_region nm c.next_reg);
}

ident-fresh :
    (nm : List ℕ) (s : ℕ) (c : Ctl)
    → find_slot (has_name nm) c.regs ≡ none
    → free_slot is_used region_id c.regs ≡ some s
    → reg_ident nm c ≡ (c.next_reg, made nm s c)
unfolding reg_ident reg_ident_at reg_fill
ident-fresh nm s c missing free = ap (reg_ident_at nm c) missing ∙ ap (reg_fill nm c) free

free-lt : (s : ℕ) (c : Ctl) → free_slot is_used region_id c.regs ≡ some s → s < length c.regs
free-lt s c free =
    let (y, at, _) = free_slot-some is_used region_id c.regs s free in get_elem?-lt c.regs s at

-- A name that fits its array is shared: the first M_ident makes the region, and every later one
-- returns the same id and changes nothing.
pub reg_ident_again :
    (nm : List ℕ) (s : ℕ) (c : Ctl)
    → length nm ≤ region_chars
    → find_slot (has_name nm) c.regs ≡ none
    → free_slot is_used region_id c.regs ≡ some s
    → reg_ident nm (reg_ident nm c).1 ≡ ((reg_ident nm c).0, (reg_ident nm c).1)
unfolding reg_ident reg_ident_at
reg_ident_again nm s c short missing free =
    subst (λ (p : ℕ × Ctl). reg_ident nm p.1 ≡ (p.0, p.1)) (sym (ident-fresh nm s c missing free))
      (again (
        find_slot-intro (has_name nm) (set c.regs s x) s x (get_elem?-set_self c.regs s x inside)
          hit below))
  where
    x : Region
    x = new_region nm c.next_reg

    inside : s < length c.regs
    inside = free-lt s c free

    hit : has_name nm x ≡ true
    hit = ap (λ t. bytes_eq t nm) (take_of_le region_chars nm short) ∙ bytes_eq_refl nm

    below :
        (j : ℕ) (y : Region) → j < s → get_elem? (set c.regs s x) j ≡ some y → has_name nm y ≡ false
    below j y lt at = elim (set-cases is_used region_id c.regs s j x y at) [
      | inl (e, _) ↦ absurd (omega arith)
      | inr (_, old) ↦ find_slot-none (has_name nm) c.regs j y missing old
    ]

    again :
        find_slot (has_name nm) (set c.regs s x) ≡ some s
        → reg_ident nm (made nm s c) ≡ (c.next_reg, made nm s c)
    again h =
        ap (reg_ident_at nm (made nm s c)) h
        ∙ (λ i. ((get_or-set_self c.regs s x no_region inside i).id, made nm s c))

-- A name of 20 characters or more is not: its array holds 19 of them, the lookup compares the whole
-- name, so that no region ever answers to it and each M_ident of it, while there is room, makes
-- another region, under a new id.
pub reg_ident_long_name :
    (nm : List ℕ) (s : ℕ) (c : Ctl)
    → region_chars < length nm
    → find_slot (has_name nm) c.regs ≡ none
    → free_slot is_used region_id c.regs ≡ some s
    → ((reg_ident nm c).0 ≡ c.next_reg) × (find_slot (has_name nm) (reg_ident nm c).1.regs ≡ none)
reg_ident_long_name nm s c long missing free =
    subst (λ (p : ℕ × Ctl). (p.0 ≡ c.next_reg) × (find_slot (has_name nm) p.1.regs ≡ none))
      (sym (ident-fresh nm s c missing free)) (refl, still)
  where
    x : Region
    x = new_region nm c.next_reg

    miss : has_name nm x ≡ true → take region_chars nm ≡ nm
    miss h = bytes_eq→eq (take region_chars nm) nm h

    still : find_slot (has_name nm) (set c.regs s x) ≡ none
    still = elim (Option-cases (find_slot (has_name nm) (set c.regs s x))) [
      | inl e ↦ e
      | inr (j, e) ↦
          let (y, at, hit) = find_slot-some (has_name nm) (set c.regs s x) j e in
          elim (set-cases is_used region_id c.regs s j x y at) [
            | inl (_, same) ↦ absurd (
                omega (
                  arith,
                  long,
                  length-take region_chars nm,
                  ap length (miss (sym (ap (has_name nm) same) ∙ hit)),
                ))
            | inr (_, old) ↦ cc (hit, find_slot-none (has_name nm) c.regs j y missing old)
          ]
    ]
