-- ===== src/Tests/Sections.antt =====
-- An image with a section, written and read with its section headers.
use elfex.Common.{◌≤◌, ◌≡◌, refl, arith, Bytes, List, [], ◌∷◌, map}
use elfex.Common.Outcome.{ok}
use elfex.Common.Slices.{bytes_eq}
use elfex.Common.Words.{low32}
use elfex.Elf.{ElfImage}
use elfex.Elf.Build.{try_build, writable}
use elfex.Elf.Build.Enough.{total_cost, try_build-total}
use elfex.Elf.Build.Names.{
  ensure_shstrtab, assign_name_offsets, assign_names, assign_name, name_blob, name_offsets,
  position, is_shstrtab, u16_or_zero,
}
use elfex.Elf.Build.Output.{max_image}
use elfex.Elf.Build.SectionTable.{try_build-read_section_headers}
use elfex.Elf.Build.Serialized.{table_end}
use elfex.Elf.Build.Stored.{AllStored, named}
use elfex.Elf.Parse.Sections.{read_section_headers}
use elfex.Header
use elfex.Headers.{ElfHeaders, from_slice}
use elfex.Ident.ElfClass.{elf64}
use elfex.Program
use elfex.Reader.{slice_reader}
use elfex.Section
use elfex.Section.{Section}
use elfex.Section.RoundTrip as SectionTrip
use elfex.Tests.Data.{
  image_of, text_segment, strings_header, file_header-IsTyped, text_header-IsTyped,
}

abbrev pub comment : Section
comment = record {
  header = record strings_header { name_index = 0; type = 1; offset = 0; size = 0 };
  name = b'.' ∷ b'c' ∷ [];
  bytes = 7 ∷ 8 ∷ 9 ∷ [];
}

abbrev pub with_section : ElfImage
with_section = record (image_of (text_segment ∷ [])) { sections = comment ∷ [] }

-- The section as it is named, and the table of the names.
abbrev pub names_section : Section
names_section = record {
  header = record strings_header { name_index = 4; offset = 0; size = 14 };
  name = b'.' ∷ b's' ∷ b'h' ∷ b's' ∷ b't' ∷ b'r' ∷ b't' ∷ b'a' ∷ b'b' ∷ [];
  bytes =
      0 ∷ b'.' ∷ b'c' ∷ 0 ∷ b'.' ∷ b's' ∷ b'h' ∷ b's' ∷ b't' ∷ b'r' ∷ b't' ∷ b'a' ∷ b'b' ∷ 0 ∷ [];
}

pub with_section-named :
    named with_section.sections
    ≡ record comment { header = record comment.header { name_index = 1 } } ∷ names_section ∷ []
unfolding ensure_shstrtab assign_name_offsets assign_names assign_name name_blob name_offsets
    position is_shstrtab u16_or_zero bytes_eq low32
with_section-named = refl

pub with_section-small : total_cost with_section ≤ max_image
unfolding Header.size Program.size Section.header_size writable ensure_shstrtab assign_name_offsets
    assign_names assign_name name_blob name_offsets position is_shstrtab u16_or_zero bytes_eq low32
with_section-small = omega arith

abbrev pub written : (bytes : Bytes) × (try_build with_section ≡ ok bytes)
written =
    try_build-total with_section with_section-small (omega arith)
      (rw with_section-named (omega arith)) refl

comment-IsTyped : SectionTrip.IsTyped (record comment.header { name_index = 1 })
comment-IsTyped = omega arith

names-IsTyped : SectionTrip.IsTyped names_section.header
names-IsTyped = omega arith

try_build-read_section_headers_example :
    (headers : ElfHeaders) × (from_slice written.0 ≡ ok headers)
    × (sections : List Section) × (read_section_headers (slice_reader written.0) headers
        ≡ ok (map (λ (s : Section). SectionTrip.narrow elf64 s.header) sections))
    × AllStored written.0 (table_end with_section) max_image (named with_section.sections) sections
try_build-read_section_headers_example =
    try_build-read_section_headers with_section refl file_header-IsTyped (text_header-IsTyped, tt)
      (rw with_section-named (comment-IsTyped, (names-IsTyped, tt))) written.1
