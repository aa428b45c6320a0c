-- ===== src/Program/RoundTrip.antt =====
-- A program header, written and read back, in both classes and byte orders.
use elfex.Common.{
  ℕ, ◌<◌, ◌≡◌, refl, Bytes, ◌++◌, append_assoc, length, concat, concat_onto, concat-append,
}
use elfex.Common.Outcome.{ok, u64_mod}
use elfex.Common.Words.{low32, low32-small, low32-lt}
use elfex.Ident.ElfClass.{ElfClass, elf32, elf64}
use elfex.Ident.Endian.{Endian}
use elfex.Reader.{slice_reader}
use elfex.Reader.Fields.{
  At, At-append, At-eq, behind_first, behind, read_u32, u32_field-At, u64_field-At,
}
use elfex.Program.{ProgramHeader, parse, fields, write}

-- What the types of the fields say: `u32` and `u64`.
pub record IsTyped (h : ProgramHeader) : Type 0 where
  pub type_lt : h.type < 0x100000000
  pub flags_lt : h.flags < 0x100000000
  pub offset_lt : h.offset < u64_mod
  pub vaddr_lt : h.vaddr < u64_mod
  pub paddr_lt : h.paddr < u64_mod
  pub filesz_lt : h.filesz < u64_mod
  pub memsz_lt : h.memsz < u64_mod
  pub align_lt : h.align < u64_mod

-- What a class can hold of a header: 32-bit objects keep the lower halves.
unfoldable pub narrow : ElfClass → ProgramHeader → ProgramHeader
narrow elf64 h = h
narrow elf32 h = record h {
  offset = low32 h.offset;
  vaddr = low32 h.vaddr;
  paddr = low32 h.paddr;
  filesz = low32 h.filesz;
  memsz = low32 h.memsz;
  align = low32 h.align;
}

-- The fields that are 32 bits wide in a 32-bit object fit there.
pub record FitsElf32 (h : ProgramHeader) : Type 0 where
  pub offset_fits : h.offset < 0x100000000
  pub vaddr_fits : h.vaddr < 0x100000000
  pub paddr_fits : h.paddr < 0x100000000
  pub filesz_fits : h.filesz < 0x100000000
  pub memsz_fits : h.memsz < 0x100000000
  pub align_fits : h.align < 0x100000000

-- The fields that a class narrows are in its range.
abbrev pub FitsClass : ElfClass → ProgramHeader → Type 0
FitsClass elf64 h = Unit {0}
FitsClass elf32 h = FitsElf32 h

pub narrow_lem : (class : ElfClass) (h : ProgramHeader) → FitsElf32 h → narrow class h ≡ h
unfolding narrow
narrow_lem elf64 h f = refl
narrow_lem elf32 h f = rw (
  low32-small h.offset f.offset_fits,
  low32-small h.vaddr f.vaddr_fits,
  low32-small h.paddr f.paddr_fits,
  low32-small h.filesz f.filesz_fits,
  low32-small h.memsz f.memsz_fits,
  low32-small h.align f.align_fits,
)

module _ (bytes : Bytes) (off : ℕ) (e : Endian) (h : ProgramHeader) (rest : Bytes) where
  parse_64 :
      IsTyped h
      → At bytes off (concat_onto (fields h e elf64) rest)
      → parse (slice_reader bytes) off e elf64 ≡ ok (narrow elf64 h)
  unfolding parse fields narrow
  parse_64 t a0 =
      let a4 = behind_first bytes off e 4 h.type _ a0 in
      let a8 = behind bytes off e 4 4 8 h.flags _ a4 refl in
      let a16 = behind bytes off e 8 8 16 h.offset _ a8 refl in
      let a24 = behind bytes off e 8 16 24 h.vaddr _ a16 refl in
      let a32 = behind bytes off e 8 24 32 h.paddr _ a24 refl in
      let a40 = behind bytes off e 8 32 40 h.filesz _ a32 refl in
      let a48 = behind bytes off e 8 40 48 h.memsz _ a40 refl in
      rw (
        read_u32 bytes off e h.type _ t.type_lt a0,
        u32_field-At bytes off e 4 h.flags _ t.flags_lt a4,
        u64_field-At bytes off e 8 h.offset _ t.offset_lt a8,
        u64_field-At bytes off e 16 h.vaddr _ t.vaddr_lt a16,
        u64_field-At bytes off e 24 h.paddr _ t.paddr_lt a24,
        u64_field-At bytes off e 32 h.filesz _ t.filesz_lt a32,
        u64_field-At bytes off e 40 h.memsz _ t.memsz_lt a40,
        u64_field-At bytes off e 48 h.align _ t.align_lt a48,
      )

  parse_32 :
      IsTyped h
      → At bytes off (concat_onto (fields h e elf32) rest)
      → parse (slice_reader bytes) off e elf32 ≡ ok (narrow elf32 h)
  unfolding parse fields narrow
  parse_32 t a0 =
      let a4 = behind_first bytes off e 4 h.type _ a0 in
      let a8 = behind bytes off e 4 4 8 (low32 h.offset) _ a4 refl in
      let a12 = behind bytes off e 4 8 12 (low32 h.vaddr) _ a8 refl in
      let a16 = behind bytes off e 4 12 16 (low32 h.paddr) _ a12 refl in
      let a20 = behind bytes off e 4 16 20 (low32 h.filesz) _ a16 refl in
      let a24 = behind bytes off e 4 20 24 (low32 h.memsz) _ a20 refl in
      let a28 = behind bytes off e 4 24 28 h.flags _ a24 refl in
      rw (
        read_u32 bytes off e h.type _ t.type_lt a0,
        u32_field-At bytes off e 4 (low32 h.offset) _ (low32-lt h.offset) a4,
        u32_field-At bytes off e 8 (low32 h.vaddr) _ (low32-lt h.vaddr) a8,
        u32_field-At bytes off e 12 (low32 h.paddr) _ (low32-lt h.paddr) a12,
        u32_field-At bytes off e 16 (low32 h.filesz) _ (low32-lt h.filesz) a16,
        u32_field-At bytes off e 20 (low32 h.memsz) _ (low32-lt h.memsz) a20,
        u32_field-At bytes off e 24 h.flags _ t.flags_lt a24,
        u32_field-At bytes off e 28 (low32 h.align) _ (low32-lt h.align) a28,
      )

-- Wherever a slice goes on with the fields of a header, the header is read there.
pub parse-At :
    (bytes : Bytes) (off : ℕ) (e : Endian) (class : ElfClass) (h : ProgramHeader) (rest : Bytes)
    → IsTyped h
    → At bytes off (concat_onto (fields h e class) rest)
    → parse (slice_reader bytes) off e class ≡ ok (narrow class h)
parse-At bytes off e elf64 h rest t a = parse_64 bytes off e h rest t a
parse-At bytes off e elf32 h rest t a = parse_32 bytes off e h rest t a

-- A program header that was written behind `out` is read back from there, whatever follows, with
-- what its class can hold, if its fields are in the range of their types and the whole is shorter
-- than 2^64 bytes.
pub parse-write_program :
    (h : ProgramHeader) (out rest : Bytes) (e : Endian) (class : ElfClass)
    → IsTyped h
    → length (out ++ (concat (fields h e class) ++ rest)) < u64_mod
    → parse (slice_reader (write h out e class ++ rest)) (length out) e class ≡ ok (narrow class h)
unfolding write
parse-write_program h out rest e class t fits = rw append_assoc (
    parse-At _ (length out) e class h rest t (
      At-eq (concat_onto (fields h e class) rest)
        (At-append out (concat (fields h e class) ++ rest) fits)
        (concat-append (fields h e class) rest)))
