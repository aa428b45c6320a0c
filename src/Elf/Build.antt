-- ===== src/Elf/Build.antt =====
-- src/elf/build.rs: images written in file layout.
pub mod Output
pub mod Names
pub mod Mapped
pub mod Buffer
pub mod Congruence
pub mod Segments
pub mod Placing
pub mod Stored
pub mod Finish
pub mod Serialized
pub mod ReadBack
pub mod Outcomes
pub mod Reparsed
pub mod Within
pub mod Enough
pub mod Loading
pub mod MappedBytes
pub mod Loaded
pub mod Relocated
pub mod Moves
pub mod Rebased
pub mod SectionTable
pub mod Named
pub mod SameSections
pub mod NamedFields
pub mod NamesTable
pub mod WithSections
pub mod Rewritten
pub mod Derived
pub mod DerivedTables
pub mod ParsedTables
use elfex.Common.{
  ℕ, zero, suc, ◌+◌, ◌-◌, ◌*◌, Bytes, List, [], ◌∷◌, not, ltb, ◌==◌, if◌then◌else◌, min, max,
  length, take, replicate,
}
use elfex.Common.Outcome.{Outcome, ok, ◌>>=◌, ◌>>◌, reject_if, generic}
use elfex.Elf.{ElfImage, align_up}
use elfex.Elf.Build.Names.{ensure_shstrtab, assign_name_offsets}
use elfex.Elf.Build.Output.{congruent, write_at, copy_head}
use elfex.Header
use elfex.Header.{ElfHeader}
use elfex.Headers.Table.{write_table}
use elfex.Ident.ElfClass.{ElfClass}
use elfex.Ident.Endian.{Endian}
use elfex.Program
use elfex.Program.{ProgramHeader, Segment}
use elfex.Program.SegmentType
use elfex.Section
use elfex.Section.{Section, SectionHeader, header_size, is_nobits}

-- How many bytes of a segment are written, and where.
unfoldable pub writable : Segment → ℕ
writable s = min s.header.filesz (length s.bytes)

unfoldable pub segment_offset : ℕ → Segment → ℕ
segment_offset cursor s =
    congruent cursor s.header.vaddr
      (if s.header.type == SegmentType.load then max s.header.align 1 else 1)

-- A round of the loop over the segments: the header as it is written, the buffer and the cursor.
-- `write_at` has bounded the sum.
unfoldable pub place_segment : Bytes → ℕ → Segment → Outcome (ProgramHeader × Bytes × ℕ)
place_segment out cursor s =
    let count = writable s in
    let at = segment_offset cursor s in
    let present : Outcome (ProgramHeader × Bytes × ℕ) = (do
      out' ← write_at out at (take count s.bytes)
      ok (record s.header { offset = at; filesz = count }, out', at + count)) in
    if count == 0 then ok (record s.header { offset = 0; filesz = 0 }, out, cursor) else present

unfoldable pub place_segments : Bytes → ℕ → List Segment → Outcome (List ProgramHeader × Bytes × ℕ)
place_segments out cursor [] = ok ([], out, cursor)
place_segments out cursor (s ∷ ss) = do
  (phdr, out', cursor') ← place_segment out cursor s
  (phdrs, out'', cursor'') ← place_segments out' cursor' ss
  ok (phdr ∷ phdrs, out'', cursor'')

-- The same for the sections.
unfoldable pub place_section : Bytes → ℕ → Section → Outcome (Section × Bytes × ℕ)
place_section out cursor s =
    let count = length s.bytes in
    let at = align_up cursor (max s.header.addralign 1) in
    let present : Outcome (Section × Bytes × ℕ) = (do
      out' ← write_at out at s.bytes
      ok (record s { header = record s.header { offset = at; size = count } }, out', at + count)) in
    if is_nobits s.header
    then ok (s, out, cursor)
    else if count == 0
    then ok (record s { header = record s.header { size = 0 } }, out, cursor)
    else present

unfoldable pub place_sections : Bytes → ℕ → List Section → Outcome (List Section × Bytes × ℕ)
place_sections out cursor [] = ok ([], out, cursor)
place_sections out cursor (s ∷ ss) = do
  (placed, out', cursor') ← place_section out cursor s
  (sections, out'', cursor'') ← place_sections out' cursor' ss
  ok (placed ∷ sections, out'', cursor'')

-- What is known when the sections are placed.
pub record Placed : Type 0 where
  pub sections : List Section
  pub out : Bytes
  pub cursor : ℕ
  pub shstrndx : ℕ

unfoldable pub build_sections : Bytes → ℕ → List Section → Outcome Placed
build_sections out cursor [] =
    ok (record { sections = []; out = out; cursor = cursor; shstrndx = 0 })
build_sections out cursor (s ∷ ss) = do
  let (sections, shstrndx) = ensure_shstrtab (s ∷ ss)
  (placed, out', cursor') ← place_sections out cursor (assign_name_offsets sections)
  ok (record { sections = placed; out = out'; cursor = cursor'; shstrndx = shstrndx })

-- `for section in &sections { section.header.write(&mut table, endian, class) }`
unfoldable pub write_section_table : List Section → Bytes → Endian → ElfClass → Bytes
write_section_table [] out endian class = out
write_section_table (s ∷ ss) out endian class =
    write_section_table ss (Section.write s.header out endian class) endian class

-- The file header as it is written, but for `shoff`.
unfoldable pub final_header : ElfHeader → ElfClass → ℕ → ℕ → ℕ → ElfHeader
final_header header class phnum shnum shstrndx = record header {
  phoff = Header.size class;
  ehsize = Header.size class;
  phentsize = Program.size class;
  phnum = phnum;
  shentsize = header_size class;
  shnum = shnum;
  shstrndx = shstrndx;
}

-- The section header table, and its offset.
unfoldable pub finish_sections : Placed → Bytes → Endian → ElfClass → Outcome (Bytes × ℕ)
finish_sections placed out endian class =
    let shoff = align_up placed.cursor 8 in
    let present : Outcome (Bytes × ℕ) = (do
      out' ← write_at out shoff (write_section_table placed.sections [] endian class)
      ok (out', shoff)) in
    if length placed.sections == 0 then ok (out, 0) else present

-- The number of segments times their header's size cannot overflow: they are in memory.
unfoldable pub try_build : ElfImage → Outcome Bytes
try_build image = do
  let class = image.ident.class
  let endian = image.ident.encoding
  let ehsize = Header.size class
  (phdrs, out, cursor) ←
      place_segments (replicate ehsize 0) (ehsize + Program.size class * length image.segments)
        image.segments
  placed ← build_sections out cursor image.sections
  out' ← write_at placed.out ehsize (write_table phdrs [] endian class)
  reject_if (not (ltb (length phdrs) 0x10000)) (generic "too many program headers for one table")
  reject_if (not (ltb (length placed.sections) 0x10000)) (generic "too many sections for one table")
  (out'', shoff) ← finish_sections placed out' endian class
  let header =
      final_header image.header class (length phdrs) (length placed.sections) placed.shstrndx
  copy_head out'' ehsize (Header.write (record header { shoff = shoff }) [])
