-- ===== src/Plcbin/Tests.antt =====
-- The reader of the code section on a file of 51 bytes.
use tnc640unix.Base.{ℕ, ◌≡◌, refl, List, [], ◌∷◌, ◌++◌, arith, take, drop, replicate}
use tnc640unix.Plcbin.Files.{fread, fseek, getlong}
use tnc640unix.Plcbin.Code.{Handle, read_bin_code_info}
use tnc640unix.Plcbin.Whole.{read_all, read_all-whole}

-- The code section 7 8 9 stands at 48.
abbrev module_file : List ℕ
module_file = replicate 40 0 ++ (0 ∷ 0 ∷ 0 ∷ 48 ∷ 0 ∷ 0 ∷ 0 ∷ 3 ∷ 7 ∷ 8 ∷ 9 ∷ [])

abbrev unread : Handle
unread = record {
  file = record { bytes = module_file; at = 40 };
  version = 200;
  bin_off = 0;
  bin_size = 0;
  bin_pos = 0;
}

abbrev informed : Handle
informed = record unread {
  file = record { bytes = module_file; at = 48 };
  bin_off = 48;
  bin_size = 3;
}

read_all-whole_example :
    let (read, last) = read_all 4 2 unread in
    (read ≡ take 3 (drop 48 module_file)) × (last.bin_off ≡ 0) × (last.bin_pos ≡ 0)
unfolding read_bin_code_info fseek getlong fread
read_all-whole_example =
    read_all-whole 2 4 unread informed refl (λ e. omega (arith, e)) (omega arith) (omega arith) refl
      (omega arith) (omega arith) (omega arith) (omega arith)
