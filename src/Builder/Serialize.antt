-- ===== src/Builder/Serialize.antt =====
-- The byte forms of the builder's note records and relocation entries.
use elfex.Common.{
  ℕ, zero, suc, ◌+◌, ◌*◌, List, Option, none, some, ◌%◌, Bytes, [], ◌∷◌, ◌++◌, concat, ltb, ◌==◌,
  if◌then◌else◌, length,
}
use elfex.Common.Int.{ℤ, pos, negsuc, to_pattern}
use elfex.Common.Words.{low32}
use elfex.Ident.ElfClass.{ElfClass, elf32, elf64}
use elfex.Ident.Endian.{Endian, u32_bytes, u64_bytes, i64_bytes, i32_half}
use elfex.Reloc.{RelocationEntry}

-- `u32::try_from(v).unwrap_or(0)`
unfoldable pub u32_or_zero : ℕ → ℕ
u32_or_zero v = if ltb v 0x100000000 then v else 0

pub record NoteSpec : Type 0 where
  pub name : Bytes
  pub note_type : ℕ
  pub descriptor : Bytes

-- `while out.len() % 4 != 0 { out.push(0) }`; three rounds are enough.
unfoldable pub pad_loop : ℕ → Bytes → Bytes
pad_loop zero out = out
pad_loop (suc fuel) out =
    let more = pad_loop fuel (out ++ (0 ∷ [])) in if length out % 4 == 0 then out else more

unfoldable pub serialize_note : NoteSpec → Endian → Bytes
serialize_note spec endian =
    let namesz = u32_or_zero (length spec.name + 1) in
    let descsz = u32_or_zero (length spec.descriptor) in
    let named = concat (
      u32_bytes endian namesz
      ∷ u32_bytes endian descsz
      ∷ u32_bytes endian spec.note_type
      ∷ spec.name
      ∷ (0 ∷ [])
      ∷ []) in
    pad_loop 3 (pad_loop 3 named ++ spec.descriptor)

-- `i32::try_from(addend.unwrap_or(0)).unwrap_or(0)`
unfoldable pub i32_addend : Option ℤ → ℤ
i32_addend none = pos 0
i32_addend (some (pos n)) = if ltb n i32_half then pos n else pos 0
i32_addend (some (negsuc n)) = if ltb n i32_half then negsuc n else pos 0

unfoldable pub addend_or_zero : Option ℤ → ℤ
addend_or_zero none = pos 0
addend_or_zero (some addend) = addend

-- The bytes of one entry. A shift to the left by k is a product with 2^k, cut to 32 bits in a
-- 32-bit object, and `|` of two numbers without a common bit is their sum.
unfoldable pub rela_parts : RelocationEntry → Endian → ElfClass → List Bytes
rela_parts entry endian elf64 =
    u64_bytes endian entry.offset
    ∷ u64_bytes endian (entry.symbol * 0x100000000 + entry.r_type)
    ∷ i64_bytes endian (addend_or_zero entry.addend)
    ∷ []
rela_parts entry endian elf32 =
    u32_bytes endian (low32 entry.offset)
    ∷ u32_bytes endian (low32 (entry.symbol * 0x100) + entry.r_type % 0x100)
    ∷ u32_bytes endian (to_pattern i32_half (i32_addend entry.addend))
    ∷ []

unfoldable pub rela_loop : Bytes → List RelocationEntry → Endian → ElfClass → Bytes
rela_loop out [] endian class = out
rela_loop out (entry ∷ entries) endian class =
    rela_loop (out ++ concat (rela_parts entry endian class)) entries endian class

unfoldable pub serialize_rela : List RelocationEntry → Endian → ElfClass → Bytes
serialize_rela entries endian class = rela_loop [] entries endian class
