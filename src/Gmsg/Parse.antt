-- ===== src/Gmsg/Parse.antt =====
-- A reader of the messages, written from the wire format (a tag word, then the attribute; the top
-- bit of the tag marks an absent one), and that it undoes the serializer.
use tnc640unix.Base.{
  ℕ, zero, suc, ◌+◌, ◌-◌, ◌^◌, ◌<◌, ◌≡◌, refl, sym, ap, subst, ◌∙◌, Bool, true, false, Option, none,
  some, List, [], ◌∷◌, ◌++◌, arith, if◌then◌else◌, ◌==◌, length, bytes32, word_of, word_of-bytes32,
  take, drop, take_append, drop_append, leb,
}
use mathlib.Core.List.{append_assoc, append-nil}
use tnc640unix.Gmsg.{
  gmc_string, gmc_int, gmc_list, gmc_enum_subsys_type, gm_word, gm_str, gm_absent, gm_scalar,
  gm_int, gm_list_empty, gm_optional, gm_build_fmloadprocess,
}

-- An attribute: absent with its code, a string, or another tag with its value.
pub data Attr : Type 0 where
  absent : ℕ → Attr
  str : List ℕ → Attr
  value : ℕ → ℕ → Attr

-- The bytes of an attribute.
pub encode : Attr → List ℕ
encode (absent code) = bytes32 (2 ^ 31 + code)
encode (str s) = bytes32 gmc_string ++ (bytes32 (length s) ++ s)
encode (value code v) = bytes32 code ++ bytes32 v

pub encodes : List Attr → List ℕ
encodes [] = []
encodes (a ∷ attrs) = encode a ++ encodes attrs

-- What the format can carry.
pub Fits : Attr → Type 0
Fits (absent code) = code < 2 ^ 31
Fits (str s) = length s < 2 ^ 32
Fits (value code v) = (code < 2 ^ 31) × (v < 2 ^ 32) × ((code == gmc_string) ≡ false)

pub AllFit : List Attr → Type 0
AllFit [] = 0 < 1
AllFit (a ∷ attrs) = Fits a × AllFit attrs

-- The attribute behind its tag.
abbrev read_tagged : ℕ → List ℕ → Attr × List ℕ
read_tagged tag s =
    if leb (2 ^ 31) tag
    then (absent (tag - 2 ^ 31), s)
    else if tag == gmc_string
    then (str (take (word_of s) (drop 4 s)), drop (word_of s) (drop 4 s))
    else (value tag (word_of s), drop 4 s)

pub read_attr : List ℕ → Option (Attr × List ℕ)
read_attr (a ∷ b ∷ c ∷ d ∷ s) = some (read_tagged (word_of (a ∷ b ∷ c ∷ d ∷ [])) s)
read_attr _ = none

-- `n` attributes.
pub read_attrs : ℕ → List ℕ → Option (List Attr × List ℕ)
read_attrs zero s = some ([], s)
read_attrs (suc n) s = elim (read_attr s) [
  | none ↦ none
  | some (a, t) ↦ elim (read_attrs n t) [ none ↦ none | some (attrs, u) ↦ some (a ∷ attrs, u) ]
]

tag_word : (v : ℕ) (s : List ℕ) → v < 2 ^ 32 → read_attr (bytes32 v ++ s) ≡ some (read_tagged v s)
unfolding read_attr
tag_word v s h = ap (λ t. some (read_tagged t s)) (word_of-bytes32 v [] h)

tagged-absent :
    (code : ℕ) (s : List ℕ) → code < 2 ^ 31 → read_tagged (2 ^ 31 + code) s ≡ (absent code, s)
tagged-absent code s h = ground arith

tagged-value :
    (code v : ℕ) (s : List ℕ)
    → code < 2 ^ 31
    → (code == gmc_string) ≡ false
    → read_tagged code (bytes32 v ++ s) ≡ (value code (word_of (bytes32 v ++ s)), s)
tagged-value code v s h ne = ground arith

read_attr-encode : (a : Attr) (s : List ℕ) → Fits a → read_attr (encode a ++ s) ≡ some (a, s)
unfolding Fits encode
read_attr-encode (absent code) s h =
    tag_word (2 ^ 31 + code) s (omega (arith, h)) ∙ ap some (tagged-absent code s h)
read_attr-encode (str t) s h =
    tag_word gmc_string (bytes32 (length t) ++ (t ++ s)) (omega arith)
    ∙ (λ i. some (str (take (size i) (t ++ s)), drop (size i) (t ++ s)))
    ∙ (λ i. some (str (take_append t s i), drop_append t s i))
  where
    size : word_of (bytes32 (length t) ++ (t ++ s)) ≡ length t
    size = word_of-bytes32 (length t) (t ++ s) h
read_attr-encode (value code v) s (h, h', ne) =
    tag_word code (bytes32 v ++ s) (omega (arith, h))
    ∙ ap some (tagged-value code v s h ne)
    ∙ (λ i. some (value code (word_of-bytes32 v s h' i), s))

read_attrs-encodes :
    (attrs : List Attr) (s : List ℕ)
    → AllFit attrs
    → read_attrs (length attrs) (encodes attrs ++ s) ≡ some (attrs, s)
unfolding AllFit encodes read_attrs
read_attrs-encodes [] s h = refl
read_attrs-encodes (a ∷ attrs) s (h, hs) =
    ap
      (λ o. elim o [
        | none ↦ none
        | some (a, t) ↦ elim (read_attrs (length attrs) t) [
          | none ↦ none
          | some (attrs, u) ↦ some (a ∷ attrs, u)
        ]
      ])
      (ap read_attr (append_assoc (encode a) (encodes attrs) s)
        ∙ read_attr-encode a (encodes attrs ++ s) h)
    ∙ ap (λ o. elim o [ none ↦ none | some (attrs, u) ↦ some (a ∷ attrs, u) ])
        (read_attrs-encodes attrs s hs)

-- The attribute that an optional string is sent as.
abbrev pub optional : Option (List ℕ) → Attr
optional none = absent gmc_string
optional (some s) = str s

-- The seven attributes of an FmLoadProcess.
abbrev pub process_attrs : Bool → Option (List ℕ) → Option (List ℕ) → Option (List ℕ) → List Attr
process_attrs present proc_name cmd_opts image_path =
    optional proc_name
    ∷ optional cmd_opts
    ∷ value gmc_list 0
    ∷ absent gmc_string
    ∷ optional image_path
    ∷ (if present then value gmc_enum_subsys_type 0 else absent gmc_enum_subsys_type)
    ∷ (if present then value gmc_int 0 else absent gmc_int)
    ∷ []

gm_str-encode : (b s : List ℕ) → gm_str b s ≡ b ++ encode (str s)
unfolding gm_str encode
gm_str-encode b s =
    append_assoc (b ++ bytes32 gmc_string) (bytes32 (length s)) s
    ∙ append_assoc b (bytes32 gmc_string) (bytes32 (length s) ++ s)

gm_scalar-encode : (b : List ℕ) (code v : ℕ) → gm_scalar b code v ≡ b ++ encode (value code v)
unfolding gm_scalar encode
gm_scalar-encode b code v = append_assoc b (bytes32 code) (bytes32 v)

gm_optional-encode : (b : List ℕ) (o : Option (List ℕ)) → gm_optional b o ≡ b ++ encode (optional o)
unfolding gm_optional gm_absent encode
gm_optional-encode b none = refl
gm_optional-encode b (some s) = gm_str-encode b s

-- Attributes written one after the other.
appended : List ℕ → List Attr → List ℕ
appended b [] = b
appended b (a ∷ attrs) = appended (b ++ encode a) attrs

appended-encodes : (b : List ℕ) (attrs : List Attr) → appended b attrs ≡ b ++ encodes attrs
unfolding appended encodes
appended-encodes b [] = sym (append-nil b)
appended-encodes b (a ∷ attrs) =
    appended-encodes (b ++ encode a) attrs ∙ append_assoc b (encode a) (encodes attrs)

end_attrs : Bool → List ℕ → List ℕ
end_attrs present b =
    if present
    then gm_int (gm_scalar b gmc_enum_subsys_type 0) 0
    else gm_absent (gm_absent b gmc_enum_subsys_type) gmc_int

-- What the serializer writes for an FmLoadProcess.
pub process-encodes :
    (present : Bool) (b : List ℕ) (proc_name cmd_opts image_path : Option (List ℕ))
    → gm_build_fmloadprocess present b proc_name cmd_opts image_path
      ≡ gm_word b 0xc80161 ++ encodes (process_attrs present proc_name cmd_opts image_path)
unfolding gm_build_fmloadprocess gm_list_empty gm_absent gm_int gm_scalar encode appended end_attrs
process-encodes present b p c o =
    (λ i. end_attrs present (
      gm_optional
        (gm_absent
          (gm_list_empty (gm_optional (gm_optional-encode (gm_word b 0xc80161) p i) c) gmc_list)
          gmc_string)
        o))
    ∙ (λ i.
        end_attrs present (
          gm_optional (gm_absent (gm_list_empty (gm_optional-encode b1 c i) gmc_list) gmc_string)
            o))
    ∙ (λ i.
        end_attrs present (gm_optional (gm_absent (gm_scalar-encode b2 gmc_list 0 i) gmc_string) o))
    ∙ (λ i. end_attrs present (gm_optional-encode (b3 ++ encode (absent gmc_string)) o i))
    ∙ last present
    ∙ appended-encodes (gm_word b 0xc80161) (process_attrs present p c o)
  where
    b1 : List ℕ
    b1 = gm_word b 0xc80161 ++ encode (optional p)

    b2 : List ℕ
    b2 = b1 ++ encode (optional c)

    b3 : List ℕ
    b3 = b2 ++ encode (value gmc_list 0)

    b5 : List ℕ
    b5 = (b3 ++ encode (absent gmc_string)) ++ encode (optional o)

    last :
        (present : Bool)
        → end_attrs present b5 ≡ appended (gm_word b 0xc80161) (process_attrs present p c o)
    last false = refl
    last true =
        (λ i. gm_int (gm_scalar-encode b5 gmc_enum_subsys_type 0 i) 0)
        ∙ gm_scalar-encode (b5 ++ encode (value gmc_enum_subsys_type 0)) gmc_int 0

-- A string that the format can carry, if there is one.
abbrev pub Carried : Option (List ℕ) → Type 0
Carried none = 0 < 1
Carried (some s) = length s < 2 ^ 32

optional-Fits : (o : Option (List ℕ)) → Carried o → Fits (optional o)
unfolding Fits
optional-Fits none h = omega arith
optional-Fits (some s) h = h

process-AllFit :
    (present : Bool) (p c o : Option (List ℕ))
    → Carried p
    → Carried c
    → Carried o
    → AllFit (process_attrs present p c o)
unfolding AllFit Fits
process-AllFit true p c o hp hc ho = (
  optional-Fits p hp,
  (
    optional-Fits c hc,
    (
      (omega arith, omega arith, refl),
      (
        omega arith,
        (
          optional-Fits o ho,
          ((omega arith, omega arith, refl), ((omega arith, omega arith, refl), omega arith)),
        ),
      ),
    ),
  ),
)
process-AllFit false p c o hp hc ho = (
  optional-Fits p hp,
  (
    optional-Fits c hc,
    (
      (omega arith, omega arith, refl),
      (omega arith, (optional-Fits o ho, (omega arith, (omega arith, omega arith)))),
    ),
  ),
)

-- Reading an FmLoadProcess behind its type word gives back its seven attributes, an absent string
-- as absent and a present one with its bytes, and nothing is left over.
pub fmloadprocess-round_trip :
    (present : Bool) (proc_name cmd_opts image_path : Option (List ℕ))
    → Carried proc_name
    → Carried cmd_opts
    → Carried image_path
    → let m = gm_build_fmloadprocess present [] proc_name cmd_opts image_path in
      (word_of m ≡ 0xc80161)
      × (read_attrs 7 (drop 4 m) ≡ some (process_attrs present proc_name cmd_opts image_path, []))
fmloadprocess-round_trip present p c o hp hc ho =
    subst
      (λ m.
        (word_of m ≡ 0xc80161) × (read_attrs 7 (drop 4 m) ≡ some (process_attrs present p c o, [])))
      (sym (process-encodes present [] p c o))
      (
        refl,
        ap (read_attrs 7) (sym (append-nil (encodes (process_attrs present p c o))))
            ∙ read_attrs-encodes (process_attrs present p c o) []
                (process-AllFit present p c o hp hc ho),
      )
