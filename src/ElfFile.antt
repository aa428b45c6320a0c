-- ===== src/ElfFile.antt =====
-- src/elf_file.rs: an image with the bytes that follow its last structure.
pub mod Trailing
use elfex.Common.{
  ℕ, ◌+◌, ◌*◌, Bytes, List, [], ◌∷◌, ◌++◌, Option, none, some, Bool, not, ◌&&◌, ltb, if◌then◌else◌,
  max,
}
use elfex.Common.Outcome.{Outcome, ok, ◌>>=◌, checked_add, checked_sub}
use elfex.Elf.{ElfImage}
use elfex.Elf.Build
use elfex.Elf.Parse.{file, read_image}
use elfex.Elf.Parse.Sections.{unwrap_or}
use elfex.Header
use elfex.Program
use elfex.Program.{Segment}
use elfex.Reader.{ReadAt, read_bytes_at, slice_reader}
use elfex.Section.{Section, header_size, is_nobits}

pub record ElfFile : Type 0 where
  pub image : ElfImage
  pub trailing : Bytes

-- `end.max(start.checked_add(len).unwrap_or(end))`
unfoldable pub reach : ℕ → ℕ → ℕ → ℕ
reach end start len = elim (checked_add start len) [ none ↦ end | some stop ↦ max end stop ]

-- One round of each loop.
unfoldable pub segment_end : ℕ → Segment → ℕ
segment_end end s = if ltb 0 s.header.filesz then reach end s.header.offset s.header.filesz else end

unfoldable pub section_end : ℕ → Section → ℕ
section_end end s =
    if not (is_nobits s.header) && ltb 0 s.header.size
    then reach end s.header.offset s.header.size
    else end

unfoldable pub segments_end : ℕ → List Segment → ℕ
segments_end end [] = end
segments_end end (s ∷ ss) = segments_end (segment_end end s) ss

unfoldable pub sections_end : ℕ → List Section → ℕ
sections_end end [] = end
sections_end end (s ∷ ss) = sections_end (section_end end s) ss

-- The products of two numbers below 2^16 cannot overflow.
unfoldable pub last_structure_end : ElfImage → ℕ
last_structure_end image =
    let class = image.ident.class in
    let phdr_end =
      reach (Header.size class) image.header.phoff (image.header.phnum * Program.size class) in
    let data_end = sections_end (segments_end phdr_end image.segments) image.sections in
    reach data_end image.header.shoff (image.header.shnum * header_size class)

-- The bytes from an offset to the end of the source; none where the size is not known or smaller,
-- or the read fails.
unfoldable pub trailing_from : ReadAt → ℕ → Outcome Bytes
trailing_from reader file_end = elim reader.size [
  | none ↦ ok []
  | some size ↦ elim (checked_sub size file_end) [
    | none ↦ ok []
    | some remaining ↦ unwrap_or (read_bytes_at reader file_end remaining) []
  ]
]

unfoldable pub read_file : ReadAt → Outcome ElfFile
read_file reader = do
  image ← read_image reader 0 file
  trailing ← trailing_from reader (last_structure_end image)
  ok (record { image = image; trailing = trailing })

unfoldable pub parse : Bytes → Outcome ElfFile
parse bytes = read_file (slice_reader bytes)

-- The written image, with the trailing bytes behind it.
unfoldable pub try_build : ElfFile → Outcome Bytes
try_build f = do bytes ← Build.try_build f.image; ok (bytes ++ f.trailing)
