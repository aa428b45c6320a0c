-- ===== src/Tests/Builder.antt =====
-- Relocations and dependencies that the builder writes, parsed back.
use elfex.Builder.DynamicTable.{needed-dynamic_bytes}
use elfex.Builder.Pieces.{dynamic_bytes, name_offsets, name_strings}
use elfex.Builder.Rela.{FitsRela64, with_addend, parse-serialize_rela}
use elfex.Builder.Serialize.{addend_or_zero, serialize_rela}
use elfex.StringTable.Names.{IsName}
use elfex.Common.{◌≡◌, refl, arith, Bytes, List, [], ◌∷◌, none, some, true, map, length}
use elfex.Common.Int.{negsuc}
use elfex.Common.Outcome.{ok}
use elfex.Dynamic
use elfex.Dynamic.{DynamicEntry}
use elfex.Ident.ElfClass.{elf64}
use elfex.Ident.Endian.{little, big}
use elfex.Reloc
use elfex.Reloc.{RelocationEntry}
use elfex.StringTable.{is_utf8}

abbrev pub pointer : RelocationEntry
pointer = record { offset = 0x4010; symbol = 0; r_type = 8; addend = some (negsuc 3) }

abbrev slot : RelocationEntry
slot = record { offset = 0x4018; symbol = 5; r_type = 7; addend = none }

abbrev entries : List RelocationEntry
entries = pointer ∷ slot ∷ []

pub pointer-Fits : FitsRela64 pointer
unfolding addend_or_zero
pointer-Fits = omega arith

slot-Fits : FitsRela64 slot
unfolding addend_or_zero
slot-Fits = omega arith

parse-serialize_rela_example :
    Reloc.parse (serialize_rela entries big elf64) true big elf64
    ≡ ok (record { entries = map with_addend entries; is_rela = true })
parse-serialize_rela_example =
    parse-serialize_rela entries big elf64 (pointer-Fits, (slot-Fits, tt))

abbrev pub libc : Bytes
libc = b'l' ∷ b'i' ∷ b'b' ∷ b'c' ∷ []

abbrev libm : Bytes
libm = b'l' ∷ b'i' ∷ b'b' ∷ b'm' ∷ []

pub libc-IsName : IsName libc
unfolding is_utf8
libc-IsName = record {
  no_nul = (
    λ h. absurd (omega arith),
    (λ h. absurd (omega arith), (λ h. absurd (omega arith), (λ h. absurd (omega arith), tt))),
  );
  text = refl;
}

libm-IsName : IsName libm
unfolding is_utf8
libm-IsName = record {
  no_nul = (
    λ h. absurd (omega arith),
    (λ h. absurd (omega arith), (λ h. absurd (omega arith), (λ h. absurd (omega arith), tt))),
  );
  text = refl;
}

strings-length : length (name_strings (0 ∷ []) (libc ∷ libm ∷ [])) ≡ 11
unfolding name_strings
strings-length = refl

needed-dynamic_bytes_example :
    (table : List DynamicEntry) × (Dynamic.parse
        (dynamic_bytes
          (name_offsets (0 ∷ []) (libc ∷ libm ∷ []))
          (length (name_strings (0 ∷ []) (libc ∷ libm ∷ [])))
          little
          elf64)
        little
        elf64
      ≡ ok table)
    × (Dynamic.needed table (name_strings (0 ∷ []) (libc ∷ libm ∷ [])) ≡ libc ∷ libm ∷ [])
needed-dynamic_bytes_example =
    needed-dynamic_bytes (libc ∷ libm ∷ []) little elf64 (libc-IsName, (libm-IsName, tt))
      (omega (arith, strings-length))
