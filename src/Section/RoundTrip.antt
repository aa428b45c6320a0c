-- ===== src/Section/RoundTrip.antt =====
-- A section header, written and read back, in both classes and byte orders.
use elfex.Common.{
  ℕ, ◌<◌, ◌≡◌, refl, Bytes, ◌++◌, append_assoc, length, concat, concat_onto, concat-append,
}
use elfex.Common.Outcome.{ok, u64_mod}
use elfex.Common.Words.{low32, low32-small, low32-lt}
use elfex.Ident.ElfClass.{ElfClass, elf32, elf64}
use elfex.Ident.Endian.{Endian}
use elfex.Reader.{slice_reader}
use elfex.Reader.Fields.{
  At, At-append, At-eq, behind_first, behind, read_u32, u32_field-At, u64_field-At,
}
use elfex.Section.{SectionHeader, parse, fields, write}

-- What the types of the fields say: `u32` and `u64`.
pub record IsTyped (h : SectionHeader) : Type 0 where
  pub name_index_lt : h.name_index < 0x100000000
  pub type_lt : h.type < 0x100000000
  pub flags_lt : h.flags < u64_mod
  pub addr_lt : h.addr < u64_mod
  pub offset_lt : h.offset < u64_mod
  pub size_lt : h.size < u64_mod
  pub link_lt : h.link < 0x100000000
  pub info_lt : h.info < 0x100000000
  pub addralign_lt : h.addralign < u64_mod
  pub entsize_lt : h.entsize < u64_mod

-- What a class can hold of a header: 32-bit objects keep the lower halves.
unfoldable pub narrow : ElfClass → SectionHeader → SectionHeader
narrow elf64 h = h
narrow elf32 h = record h {
  flags = low32 h.flags;
  addr = low32 h.addr;
  offset = low32 h.offset;
  size = low32 h.size;
  addralign = low32 h.addralign;
  entsize = low32 h.entsize;
}

-- The fields that are 32 bits wide in a 32-bit object fit there.
pub record FitsElf32 (h : SectionHeader) : Type 0 where
  pub flags_fits : h.flags < 0x100000000
  pub addr_fits : h.addr < 0x100000000
  pub offset_fits : h.offset < 0x100000000
  pub size_fits : h.size < 0x100000000
  pub addralign_fits : h.addralign < 0x100000000
  pub entsize_fits : h.entsize < 0x100000000

-- The fields that a class narrows are in its range.
abbrev pub FitsClass : ElfClass → SectionHeader → Type 0
FitsClass elf64 h = Unit {0}
FitsClass elf32 h = FitsElf32 h

pub narrow_lem : (class : ElfClass) (h : SectionHeader) → FitsElf32 h → narrow class h ≡ h
unfolding narrow
narrow_lem elf64 h f = refl
narrow_lem elf32 h f = rw (
  low32-small h.flags f.flags_fits,
  low32-small h.addr f.addr_fits,
  low32-small h.offset f.offset_fits,
  low32-small h.size f.size_fits,
  low32-small h.addralign f.addralign_fits,
  low32-small h.entsize f.entsize_fits,
)

module _ (bytes : Bytes) (off : ℕ) (e : Endian) (h : SectionHeader) (rest : Bytes) where
  parse_64 :
      IsTyped h
      → At bytes off (concat_onto (fields h e elf64) rest)
      → parse (slice_reader bytes) off e elf64 ≡ ok (narrow elf64 h)
  unfolding parse fields narrow
  parse_64 t a0 =
      let a4 = behind_first bytes off e 4 h.name_index _ a0 in
      let a8 = behind bytes off e 4 4 8 h.type _ a4 refl in
      let a16 = behind bytes off e 8 8 16 h.flags _ a8 refl in
      let a24 = behind bytes off e 8 16 24 h.addr _ a16 refl in
      let a32 = behind bytes off e 8 24 32 h.offset _ a24 refl in
      let a40 = behind bytes off e 8 32 40 h.size _ a32 refl in
      let a44 = behind bytes off e 4 40 44 h.link _ a40 refl in
      let a48 = behind bytes off e 4 44 48 h.info _ a44 refl in
      let a56 = behind bytes off e 8 48 56 h.addralign _ a48 refl in
      rw (
        read_u32 bytes off e h.name_index _ t.name_index_lt a0,
        u32_field-At bytes off e 4 h.type _ t.type_lt a4,
        u64_field-At bytes off e 8 h.flags _ t.flags_lt a8,
        u64_field-At bytes off e 16 h.addr _ t.addr_lt a16,
        u64_field-At bytes off e 24 h.offset _ t.offset_lt a24,
        u64_field-At bytes off e 32 h.size _ t.size_lt a32,
        u32_field-At bytes off e 40 h.link _ t.link_lt a40,
        u32_field-At bytes off e 44 h.info _ t.info_lt a44,
        u64_field-At bytes off e 48 h.addralign _ t.addralign_lt a48,
        u64_field-At bytes off e 56 h.entsize _ t.entsize_lt a56,
      )

  parse_32 :
      IsTyped h
      → At bytes off (concat_onto (fields h e elf32) rest)
      → parse (slice_reader bytes) off e elf32 ≡ ok (narrow elf32 h)
  unfolding parse fields narrow
  parse_32 t a0 =
      let a4 = behind_first bytes off e 4 h.name_index _ a0 in
      let a8 = behind bytes off e 4 4 8 h.type _ a4 refl in
      let a12 = behind bytes off e 4 8 12 (low32 h.flags) _ a8 refl in
      let a16 = behind bytes off e 4 12 16 (low32 h.addr) _ a12 refl in
      let a20 = behind bytes off e 4 16 20 (low32 h.offset) _ a16 refl in
      let a24 = behind bytes off e 4 20 24 (low32 h.size) _ a20 refl in
      let a28 = behind bytes off e 4 24 28 h.link _ a24 refl in
      let a32 = behind bytes off e 4 28 32 h.info _ a28 refl in
      let a36 = behind bytes off e 4 32 36 (low32 h.addralign) _ a32 refl in
      rw (
        read_u32 bytes off e h.name_index _ t.name_index_lt a0,
        u32_field-At bytes off e 4 h.type _ t.type_lt a4,
        u32_field-At bytes off e 8 (low32 h.flags) _ (low32-lt h.flags) a8,
        u32_field-At bytes off e 12 (low32 h.addr) _ (low32-lt h.addr) a12,
        u32_field-At bytes off e 16 (low32 h.offset) _ (low32-lt h.offset) a16,
        u32_field-At bytes off e 20 (low32 h.size) _ (low32-lt h.size) a20,
        u32_field-At bytes off e 24 h.link _ t.link_lt a24,
        u32_field-At bytes off e 28 h.info _ t.info_lt a28,
        u32_field-At bytes off e 32 (low32 h.addralign) _ (low32-lt h.addralign) a32,
        u32_field-At bytes off e 36 (low32 h.entsize) _ (low32-lt h.entsize) a36,
      )

-- Wherever a slice goes on with the fields of a header, the header is read there.
pub parse-At :
    (bytes : Bytes) (off : ℕ) (e : Endian) (class : ElfClass) (h : SectionHeader) (rest : Bytes)
    → IsTyped h
    → At bytes off (concat_onto (fields h e class) rest)
    → parse (slice_reader bytes) off e class ≡ ok (narrow class h)
parse-At bytes off e elf64 h rest t a = parse_64 bytes off e h rest t a
parse-At bytes off e elf32 h rest t a = parse_32 bytes off e h rest t a

-- A section header that was written behind `out` is read back from there, whatever follows, with
-- what its class can hold, if its fields are in the range of their types and the whole is shorter
-- than 2^64 bytes.
pub parse-write_section :
    (h : SectionHeader) (out rest : Bytes) (e : Endian) (class : ElfClass)
    → IsTyped h
    → length (out ++ (concat (fields h e class) ++ rest)) < u64_mod
    → parse (slice_reader (write h out e class ++ rest)) (length out) e class ≡ ok (narrow class h)
unfolding write
parse-write_section h out rest e class t fits = rw append_assoc (
    parse-At _ (length out) e class h rest t (
      At-eq (concat_onto (fields h e class) rest)
        (At-append out (concat (fields h e class) ++ rest) fits)
        (concat-append (fields h e class) rest)))
