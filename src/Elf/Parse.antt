-- ===== src/Elf/Parse.antt =====
-- src/elf/parse.rs: images read from a source in file layout or in mapped layout.
pub mod Source
pub mod Sections
pub mod Lenient
pub mod Layouts
pub mod Regular
pub mod RegularImage
pub mod Whole
pub mod SectionBytes
pub mod Mapped
use elfex.Common.{ℕ, ◌-◌, Bytes, List, [], ◌∷◌, Option, ◌==◌, ◌||◌, if◌then◌else◌, replicate}
use elfex.Common.Outcome.{Outcome, ok, ◌>>=◌}
use elfex.Elf.{ElfImage, Load, geometry}
use elfex.Elf.Inspect.{image_base}
use elfex.Elf.Parse.Sections.{read_file_sections, read_mapped_sections}
use elfex.Elf.Parse.Source.{checked_len, read_lenient, offset_reader}
use elfex.Headers.{ElfHeaders, read_from}
use elfex.Program.{ProgramHeader, Segment}
use elfex.Program.SegmentType
use elfex.Reader.{ReadAt, read_bytes_at, slice_reader}

pub data Layout : Type 0 where
  file mapped : Layout

-- The bytes of a segment in file layout.
unfoldable pub file_segment_bytes : ReadAt → ProgramHeader → Outcome Bytes
file_segment_bytes reader header =
    let present =
      checked_len header.filesz reader.size >>= λ len. read_bytes_at reader header.offset len in
    if header.type == SegmentType.null || header.filesz == 0 then ok [] else present

unfoldable pub file_segments : ReadAt → List ProgramHeader → Outcome (List Segment)
file_segments reader [] = ok []
file_segments reader (header ∷ headers) = do
  bytes ← file_segment_bytes reader header
  segments ← file_segments reader headers
  ok (record { header = header; bytes = bytes } ∷ segments)

unfoldable pub read_file_layout : ReadAt → Outcome ElfImage
read_file_layout reader = do
  headers ← read_from reader
  segments ← file_segments reader headers.program_headers
  sections ← read_file_sections reader headers
  ok (record {
    ident = headers.ident;
    header = headers.header;
    segments = segments;
    sections = sections;
    runtime_base = 0;
  })

-- `(vaddr, memsz, align)` of the loadable headers
unfoldable pub header_loads : List ProgramHeader → List Load
header_loads [] = []
header_loads (h ∷ hs) =
    let rest = header_loads hs in
    if h.type == SegmentType.load
    then (record { vaddr = h.vaddr; memsz = h.memsz; align = h.align }) ∷ rest
    else rest

unfoldable pub compute_image_base : List ProgramHeader → ℕ
compute_image_base headers = (geometry (header_loads headers)).base

-- The bytes of a segment in mapped layout: a loadable one has its memory size.
unfoldable pub mapped_segment_bytes : ReadAt → ℕ → ProgramHeader → Outcome Bytes
mapped_segment_bytes reader base header =
    let size = if header.type == SegmentType.load then header.memsz else header.filesz in
    let present = checked_len size reader.size >>= λ len.
    read_lenient reader (header.vaddr - base) (replicate len 0) in
    if header.type == SegmentType.null || size == 0 then ok [] else present

unfoldable pub mapped_segments : ReadAt → ℕ → List ProgramHeader → Outcome (List Segment)
mapped_segments reader base [] = ok []
mapped_segments reader base (header ∷ headers) = do
  bytes ← mapped_segment_bytes reader base header
  segments ← mapped_segments reader base headers
  ok (record { header = header; bytes = bytes } ∷ segments)

unfoldable pub read_mapped_layout : ReadAt → Outcome ElfImage
read_mapped_layout reader = do
  headers ← read_from reader
  let base = compute_image_base headers.program_headers
  segments ← mapped_segments reader base headers.program_headers
  sections ← read_mapped_sections reader headers base
  ok (record {
    ident = headers.ident;
    header = headers.header;
    segments = segments;
    sections = sections;
    runtime_base = 0;
  })

unfoldable pub read_layout : ReadAt → Layout → Outcome ElfImage
read_layout reader file = read_file_layout reader
read_layout reader mapped = read_mapped_layout reader

-- `ElfImage::read_from`
unfoldable pub read_image : ReadAt → ℕ → Layout → Outcome ElfImage
read_image reader base_offset layout = do
  image ← read_layout (offset_reader reader base_offset) layout
  ok (record image { runtime_base = image_base image })

unfoldable pub read_mapped_from : ReadAt → ℕ → ℕ → Outcome ElfImage
read_mapped_from reader source_address load_base = do
  image ← read_mapped_layout (offset_reader reader source_address)
  ok (record image { runtime_base = load_base })

unfoldable pub parse : Bytes → Outcome ElfImage
parse bytes = read_image (slice_reader bytes) 0 file

unfoldable pub parse_mapped : Bytes → Outcome ElfImage
parse_mapped bytes = read_image (slice_reader bytes) 0 mapped

unfoldable pub parse_mapped_at : Bytes → ℕ → Outcome ElfImage
parse_mapped_at bytes load_base = do
  image ← read_image (slice_reader bytes) 0 mapped
  ok (record image { runtime_base = load_base })
