-- ===== src/Tests/Parse.antt =====
-- A whole object of one segment, parsed in both layouts and as a file.
use elfex.Common.{
  ◌≡◌, ◌≢◌, refl, arith, Bytes, [], ◌∷◌, ◌++◌, some, map, drop, length, replicate, All,
}
use elfex.Common.Outcome.{ok}
use elfex.Common.Words.{to_le_bytes}
use elfex.Elf.{ElfImage}
use elfex.Elf.Inspect.{image_base, zero_filled}
use elfex.Elf.Parse
use elfex.Elf.Parse.{compute_image_base}
use elfex.Elf.Parse.Layouts.{IsPlaced, segment_in, parse-from_slice}
use elfex.Elf.Parse.Lenient.{read_lenient-slice}
use elfex.Elf.Parse.Mapped.{IsBounded, loaded_size, segment_mapped, parse_mapped-from_slice}
use elfex.Elf.Parse.Sections.{
  read_file_sections, read_mapped_sections, read_section_headers, section_headers_loop,
  mapped_names, name_table, mapped_sections_loop,
}
use elfex.Elf.Parse.Source.{read_lenient}
use elfex.ElfFile
use elfex.ElfFile.{last_structure_end}
use elfex.ElfFile.Trailing.{EndsBy, SectionEndsBy, last_structure_end-covers}
use elfex.Header
use elfex.Header.{ElfHeader}
use elfex.Header.ElfType
use elfex.Header.RoundTrip as HeaderTrip
use elfex.Headers.{ElfHeaders, from_slice}
use elfex.Headers.RoundTrip.{from_slice-write_table}
use elfex.Headers.Table.{write_table}
use elfex.Ident.{to_bytes}
use elfex.Ident.ElfClass.{elf64}
use elfex.Ident.Endian
use elfex.Ident.Endian.{little}
use elfex.Program
use elfex.Program.{ProgramHeader, Segment}
use elfex.Program.RoundTrip as ProgramTrip
use elfex.Program.SegmentType
use elfex.Reader.{slice_reader}
use elfex.Reloc
use elfex.Reloc.{relocation_kind, relocation_width}
use elfex.Reloc.Classes.{relocation_kind-width}
use elfex.Tests.Data.{file_header}

abbrev pub small_header : ElfHeader
small_header = record file_header { phnum = 1 }

abbrev pub code_header : ProgramHeader
code_header = record {
  type = SegmentType.load;
  flags = 5;
  offset = 120;
  vaddr = 120;
  paddr = 120;
  filesz = 2;
  memsz = 4;
  align = 1;
}

-- Two bytes of code, and three behind the last structure.
abbrev pub object : Bytes
object =
    write_table (code_header ∷ []) (Header.write small_header []) little elf64
    ++ (0x90 ∷ 0xc3 ∷ 7 ∷ 8 ∷ 9 ∷ [])

pub object-size : length object ≡ 125
unfolding write_table Header.write Header.fields Program.write Program.fields to_bytes
    Endian.word_bytes to_le_bytes
object-size = refl

abbrev pub headers : ElfHeaders
headers = record {
  ident = small_header.ident;
  header = HeaderTrip.narrow elf64 small_header;
  program_headers = map (ProgramTrip.narrow elf64) (code_header ∷ []);
}

small_header-IsTyped : HeaderTrip.IsTyped small_header
unfolding ElfType.to_u16
small_header-IsTyped = omega arith

code_header-IsTyped : ProgramTrip.IsTyped code_header
code_header-IsTyped = omega arith

object-headers : from_slice object ≡ ok headers
unfolding Header.size
object-headers =
    from_slice-write_table small_header (code_header ∷ []) (0x90 ∷ 0xc3 ∷ 7 ∷ 8 ∷ 9 ∷ [])
      small_header-IsTyped (code_header-IsTyped, tt) refl refl (omega (arith, object-size))

object-IsPlaced : All (IsPlaced object) headers.program_headers
unfolding ProgramTrip.narrow
object-IsPlaced = (λ typed full. (omega (arith, object-size), omega arith), tt)

object-sections : read_file_sections (slice_reader object) headers ≡ ok []
unfolding read_file_sections HeaderTrip.narrow
object-sections = refl

abbrev pub image : ElfImage
image = record {
  ident = headers.ident;
  header = headers.header;
  segments = map (segment_in object) headers.program_headers;
  sections = [];
  runtime_base = 0;
}

pub object-parsed : Parse.parse object ≡ ok (record image { runtime_base = image_base image })
object-parsed =
    parse-from_slice object headers [] (omega (arith, object-size)) object-headers object-IsPlaced
      object-sections

parse-from_slice_example :
    Parse.parse object ≡ ok (record image { runtime_base = image_base image })
parse-from_slice_example =
    parse-from_slice object headers [] (omega (arith, object-size)) object-headers object-IsPlaced
      object-sections

object-IsBounded : All (IsBounded object) headers.program_headers
unfolding ProgramTrip.narrow loaded_size
object-IsBounded = ((omega arith, omega (arith, object-size), omega arith), tt)

object-mapped_sections :
    read_mapped_sections (slice_reader object) headers (compute_image_base headers.program_headers)
    ≡ ok []
unfolding read_mapped_sections read_section_headers section_headers_loop HeaderTrip.narrow
    mapped_names name_table mapped_sections_loop
object-mapped_sections = refl

abbrev mapped_image : ElfImage
mapped_image = record {
  ident = headers.ident;
  header = headers.header;
  segments =
      map (segment_mapped object (compute_image_base headers.program_headers))
        headers.program_headers;
  sections = [];
  runtime_base = 0;
}

parse_mapped-from_slice_example :
    Parse.parse_mapped object ≡ ok (record mapped_image { runtime_base = image_base mapped_image })
parse_mapped-from_slice_example =
    parse_mapped-from_slice object headers [] (omega (arith, object-size)) object-headers
      object-IsBounded object-mapped_sections

read_lenient-slice_example :
    read_lenient (slice_reader (1 ∷ 2 ∷ 3 ∷ [])) 2 (replicate 4 0)
    ≡ ok (zero_filled (drop 2 (1 ∷ 2 ∷ 3 ∷ [])) 4)
read_lenient-slice_example = read_lenient-slice (1 ∷ 2 ∷ 3 ∷ []) 2 4 (omega arith) (omega arith)

last_structure_end-covers_example :
    All (EndsBy (last_structure_end image)) image.segments
    × All (SectionEndsBy (last_structure_end image)) image.sections
last_structure_end-covers_example = last_structure_end-covers image

abbrev parsed : ElfImage
parsed = record image { runtime_base = image_base image }

relative_is_classified : (relocation_kind 62 8 ≢ Reloc.other) × (relocation_kind 62 8 ≢ Reloc.tls)
unfolding relocation_kind Reloc.kind_x86_64
relative_is_classified = (λ h. cc, λ h. cc)

relocation_kind-width_example : relocation_width 62 8 ≡ some 8
relocation_kind-width_example =
    relocation_kind-width 62 8 relative_is_classified.0 relative_is_classified.1
