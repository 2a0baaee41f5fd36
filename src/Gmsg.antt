-- ===== src/Gmsg.antt =====
-- The GMessage serializer: the attribute writers gm_* and the messages built from them. A writer
-- appends to the bytes before position `p`, so it takes and returns those bytes.
pub mod Parse
mod Tests
use tnc640unix.Base.{
  ℕ, ◌+◌, ◌^◌, Bool, true, false, Option, none, some, List, [], ◌∷◌, ◌++◌, if◌then◌else◌, length,
  bytes32,
}

-- GMC_STRING, GMC_INT, GMC_LIST, GMC_ENUM_SUBSYS_TYPE, GMC_ENUM_SUBSYS_ACTION
abbrev pub gmc_string : ℕ
gmc_string = 0xe7

abbrev pub gmc_int : ℕ
gmc_int = 0x63

abbrev pub gmc_list : ℕ
gmc_list = 0x18c

abbrev pub gmc_enum_subsys_type : ℕ
gmc_enum_subsys_type = 0xc8014b

abbrev pub gmc_enum_subsys_action : ℕ
gmc_enum_subsys_action = 0xca004b

-- `put32(b+p,v); p+=4;`
abbrev pub gm_word : List ℕ → ℕ → List ℕ
gm_word b v = b ++ bytes32 v

-- `gm_str`, for a string of fewer than 2^32 bytes
unfoldable pub gm_str : List ℕ → List ℕ → List ℕ
gm_str b s = gm_word (gm_word b gmc_string) (length s) ++ s

-- `gm_absent`: the codes are below 2^31, so that the OR is a sum.
unfoldable pub gm_absent : List ℕ → ℕ → List ℕ
gm_absent b code = gm_word b (2 ^ 31 + code)

unfoldable pub gm_scalar : List ℕ → ℕ → ℕ → List ℕ
gm_scalar b code v = gm_word (gm_word b code) v

unfoldable pub gm_int : List ℕ → ℕ → List ℕ
gm_int b v = gm_word (gm_word b gmc_int) v

unfoldable pub gm_list_empty : List ℕ → ℕ → List ℕ
gm_list_empty b code = gm_word (gm_word b code) 0

-- `s ? gm_str(b,p,s) : gm_absent(b,p,GMC_STRING)`
unfoldable pub gm_optional : List ℕ → Option (List ℕ) → List ℕ
unfolding gm_str gm_absent
gm_optional b none = gm_absent b gmc_string
gm_optional b (some s) = gm_str b s

-- `gm_build_fmloadprocess`; `present` is HEROSCALL_INJECT_FMLOAD_PRESENT.
unfoldable pub gm_build_fmloadprocess :
    Bool → List ℕ → Option (List ℕ) → Option (List ℕ) → Option (List ℕ) → List ℕ
unfolding gm_optional gm_list_empty gm_absent gm_scalar gm_int
gm_build_fmloadprocess present b proc_name cmd_opts image_path =
    let b1 = gm_optional (gm_optional (gm_word b 0xc80161) proc_name) cmd_opts in
    let b2 = gm_optional (gm_absent (gm_list_empty b1 gmc_list) gmc_string) image_path in
    if present
    then gm_int (gm_scalar b2 gmc_enum_subsys_type 0) 0
    else gm_absent (gm_absent b2 gmc_enum_subsys_type) gmc_int

-- `procedure&&procedure[0] ? ...`: an empty procedure is absent too.
abbrev pub not_empty : Option (List ℕ) → Option (List ℕ)
not_empty (some []) = none
not_empty o = o

-- `gm_build_fmsubsystemaction`
unfoldable pub gm_build_fmsubsystemaction : List ℕ → ℕ → Option (List ℕ) → Option (List ℕ) → List ℕ
unfolding gm_optional gm_scalar
gm_build_fmsubsystemaction b action name procedure =
    gm_optional (gm_optional (gm_scalar (gm_word b 0xca0060) gmc_enum_subsys_action action) name)
      (not_empty procedure)

-- `gm_build_fmloadsubsystem`
unfoldable pub gm_build_fmloadsubsystem :
    Bool → List ℕ → List ℕ → List ℕ → Option (List ℕ) → Option (List ℕ) → Option (List ℕ) → List ℕ
unfolding gm_str gm_absent gm_build_fmloadprocess
gm_build_fmloadsubsystem present b name local_ns proc_name cmd_opts image_path =
    let b1 = gm_str (gm_str (gm_word b 0xc80181) name) local_ns in
    let b2 = gm_absent (gm_absent b1 gmc_string) gmc_enum_subsys_type in
    let b3 =
      gm_build_fmloadprocess present (gm_word (gm_word b2 gmc_list) 1) proc_name cmd_opts
        image_path in
    gm_absent b3 gmc_int
