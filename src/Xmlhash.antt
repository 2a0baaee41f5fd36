-- ===== src/Xmlhash.antt =====
-- recomp/xmlhash and recomp/file: the hash of a key, the setters of a hash table, and the tests of the
-- file layer. A char of a key is its byte, an object in memory its words or bytes by their offsets.
use tnc640unix.Base.{
  ℕ, ◌+◌, ◌-◌, ◌*◌, ◌/◌, ◌%◌, ◌^◌, ◌<◌, ◌≡◌, refl, Bool, false, ◌&&◌, ◌||◌, List, [], ◌∷◌, ◌++◌,
  if◌then◌else◌, ◌==◌, ltb, leb, arith, u32, bit_and, bit_xor, ℤ, pos, negsuc,
}

-- `(uint32_t)(int32_t)*p` of a signed char
abbrev pub widened : ℕ → ℕ
widened c = if ltb c 0x80 then c else c + 0xffffff00

-- The body of the loop of `XmlKeyHashBinary`.
unfoldable pub mixed : ℕ → ℕ → ℕ
mixed h c =
    let h1 = u32 (h + widened c) in let h2 = u32 (h1 + h1 * 2 ^ 10) in bit_xor h2 (h2 / 2 ^ 6)

unfoldable pub mixed_all : ℕ → List ℕ → ℕ
mixed_all h [] = h
mixed_all h (c ∷ cs) = mixed_all (mixed h c) cs

-- The end of `XmlKeyHashBinary`.
unfoldable pub settled : ℕ → ℕ
settled h =
    let h1 = u32 (h + h * 2 ^ 3) in let h2 = bit_xor h1 (h1 / 2 ^ 11) in u32 (h2 + h2 * 2 ^ 15)

-- `XmlKeyHashBinary` on the bytes of a key.
unfoldable pub xml_key_hash_binary : List ℕ → ℕ
xml_key_hash_binary [] = 0
xml_key_hash_binary (c ∷ cs) = settled (mixed_all 0 (c ∷ cs))

-- `XmlHashSetKey`, over the words of the object.
unfoldable pub xml_hash_set_key : (ℕ → ℕ) → ℕ → ℕ → (ℕ → ℕ)
xml_hash_set_key h key keylen o = if o == 0x0c then key else if o == 0x10 then keylen else h o

-- `XmlHashSetValueAllocator`
unfoldable pub xml_hash_set_value_allocator : (ℕ → ℕ) → ℕ → ℕ → (ℕ → ℕ)
xml_hash_set_value_allocator h alloc ctx o =
    if o == 0x14 then alloc else if o == 0x18 then ctx else h o

-- The byte that `BitFieldTst` reads: the quotient by 8, towards zero.
unfoldable pub bit_field_byte : ℤ → ℤ
bit_field_byte (pos n) = pos (n / 8)
bit_field_byte (negsuc n) = if leb n 6 then pos 0 else negsuc ((n - 7) / 8)

-- `1 << (bit & 7)`
unfoldable pub bit_field_mask : ℤ → ℕ
bit_field_mask (pos n) = 2 ^ (n % 8)
bit_field_mask (negsuc n) = 2 ^ (7 - n % 8)

-- `BitFieldTst`
unfoldable pub bit_field_tst : (ℤ → ℕ) → ℤ → ℕ
bit_field_tst p b = bit_and (bit_field_mask b) (p (bit_field_byte b))

-- `IsNcFile`
unfoldable pub is_nc_file : ℤ → Bool
is_nc_file (pos t) = if ltb t 6 then ltb 3 t else t == 0x26 || t == 0x27
is_nc_file (negsuc t) = false

-- `IsAscFile`
unfoldable pub is_asc_file : ℤ → Bool
is_asc_file (negsuc t) = false
is_asc_file (pos t) =
    t == 9
    || t == 10
    || t == 0xc
    || t == 0x11
    || t == 0x12
    || t == 0x13
    || t == 0x14
    || t == 0x15
    || t == 0x23
    || t == 0x28
    || t == 0x2a
    || t == 0x2b

-- `FlServerListSize`, over the words of the header.
abbrev pub fl_server_list_size : (ℕ → ℕ) → ℕ
fl_server_list_size p = p 4

-- `read_mminch`
abbrev pub read_mminch : ℕ
read_mminch = 0

-- The hash is a word.
pub xml_key_hash_binary-lt : (key : List ℕ) → xml_key_hash_binary key < 2 ^ 32
unfolding xml_key_hash_binary settled
xml_key_hash_binary-lt [] = omega arith
xml_key_hash_binary-lt (c ∷ cs) = omega arith

-- A key is hashed piece by piece.
pub mixed_all-++ : (h : ℕ) (a b : List ℕ) → mixed_all h (a ++ b) ≡ mixed_all (mixed_all h a) b
unfolding mixed_all
mixed_all-++ h [] b = refl
mixed_all-++ h (c ∷ a) b = mixed_all-++ (mixed h c) a b

-- No file type is both that of an NC program and that of a text.
pub file_types_apart : (t : ℤ) → (is_nc_file t && is_asc_file t) ≡ false
unfolding is_nc_file is_asc_file
file_types_apart (negsuc t) = refl
file_types_apart (pos t) = ground arith

-- The bit -1 is the highest of the byte 0.
bit_field_tst_run : bit_field_tst (λ o. 0x90) (negsuc 0) ≡ 0x80
unfolding bit_field_tst bit_field_mask bit_field_byte
bit_field_tst_run = refl
