-- ===== src/Elf/Parse/Sections.antt =====
-- src/elf/parse.rs: the section header table, the names, and the bytes of the sections.
use elfex.Common.{
  ℕ, zero, suc, ◌+◌, ◌-◌, ◌*◌, Bytes, List, [], ◌∷◌, Option, none, some, ◌==◌, ◌||◌, if◌then◌else◌,
  min, max, map, get_elem?,
}
use elfex.Common.Outcome.{Outcome, ok, err, panic, stuck, ◌>>=◌, saturating_add, u64_mod}
use elfex.Elf.Parse.Source.{checked_len, checked_alloc, read_lenient}
use elfex.Headers.{ElfHeaders}
use elfex.Ident.ElfClass.{ElfClass}
use elfex.Ident.Endian.{Endian}
use elfex.Reader.{ReadAt, read_bytes_at}
use elfex.Section
use elfex.Section.{Section, SectionHeader, header_size, is_nobits, is_alloc}
use elfex.Section.SectionType
use elfex.StringTable

unfoldable pub saturating_mul : ℕ → ℕ → ℕ
saturating_mul a b = min (a * b) (u64_mod - 1)

-- The loop over the table, from entry `index` on, with the entries left.
unfoldable pub section_headers_loop :
    ReadAt → Endian → ElfClass → ℕ → ℕ → ℕ → ℕ → Outcome (List SectionHeader)
section_headers_loop reader endian class shoff entry_size index zero = ok []
section_headers_loop reader endian class shoff entry_size index (suc left) = do
  header ←
      Section.parse reader (saturating_add shoff (saturating_mul index entry_size)) endian class
  raw ← section_headers_loop reader endian class shoff entry_size (index + 1) left
  ok (header ∷ raw)

unfoldable pub read_section_headers : ReadAt → ElfHeaders → Outcome (List SectionHeader)
read_section_headers reader headers =
    section_headers_loop reader headers.ident.encoding headers.ident.class headers.header.shoff
      (max headers.header.shentsize (header_size headers.ident.class)) 0 headers.header.shnum

-- `result.ok()` with a default: an error gives way, a panic does not.
abbrev pub unwrap_or {ℓ} : {A : Type ℓ} → Outcome A → A → Outcome A
unwrap_or (ok a) default = ok a
unwrap_or (err e) default = ok default
unwrap_or panic default = panic
unwrap_or stuck default = stuck

-- The header that `shstrndx` names, if it is one of a string table.
unfoldable pub name_table : ElfHeaders → List SectionHeader → Option SectionHeader
name_table headers raw = elim (get_elem? raw headers.header.shstrndx) [
  | none ↦ none
  | some header ↦ if header.type == SectionType.strtab then some header else none
]

unfoldable pub name_in : Bytes → SectionHeader → Bytes
name_in table header = elim (StringTable.get table header.name_index) [
  | none ↦ []
  | some name ↦ name
]

unfoldable pub section_names : ReadAt → ElfHeaders → List SectionHeader → Outcome (List Bytes)
section_names reader headers raw = elim (name_table headers raw) [
  | none ↦ ok []
  | some header ↦
      let table =
        checked_len header.size reader.size >>= λ len. read_bytes_at reader header.offset len in
      unwrap_or (table >>= λ bytes. ok (map (name_in bytes) raw)) []
]

unfoldable pub file_section_bytes : ReadAt → SectionHeader → Outcome Bytes
file_section_bytes reader header =
    let present =
      checked_len header.size reader.size >>= λ len. read_bytes_at reader header.offset len in
    if is_nobits header || header.size == 0 then ok [] else present

-- `names.get(index).cloned().unwrap_or_default()`
unfoldable pub name_at : List Bytes → ℕ → Bytes
name_at names index = elim (get_elem? names index) [ none ↦ [] | some name ↦ name ]

unfoldable pub file_sections_loop :
    ReadAt → List Bytes → ℕ → List SectionHeader → Outcome (List Section)
file_sections_loop reader names index [] = ok []
file_sections_loop reader names index (header ∷ raw) = do
  bytes ← file_section_bytes reader header
  sections ← file_sections_loop reader names (index + 1) raw
  ok (record { header = header; name = name_at names index; bytes = bytes } ∷ sections)

unfoldable pub read_file_sections : ReadAt → ElfHeaders → Outcome (List Section)
read_file_sections reader headers =
    let present = (do
      raw ← read_section_headers reader headers
      names ← section_names reader headers raw
      file_sections_loop reader names 0 raw) in
    if headers.header.shoff == 0 || headers.header.shnum == 0 then ok [] else present

-- Where the bytes of a section stand in a mapped image.
unfoldable pub mapped_start : ℕ → SectionHeader → ℕ
mapped_start image_base header =
    if is_alloc header.flags then header.addr - image_base else header.offset

unfoldable pub mapped_names : ReadAt → ElfHeaders → List SectionHeader → ℕ → Outcome Bytes
mapped_names reader headers raw image_base = elim (name_table headers raw) [
  | none ↦ ok []
  | some header ↦ elim (checked_alloc header.size reader.size) [
    | ok zeros ↦ read_lenient reader (mapped_start image_base header) zeros
    | err e ↦ ok []
    | panic ↦ panic
    | stuck ↦ stuck
  ]
]

unfoldable pub mapped_sections_loop :
    ReadAt → Bytes → ℕ → List SectionHeader → Outcome (List Section)
mapped_sections_loop reader strtab image_base [] = ok []
mapped_sections_loop reader strtab image_base (header ∷ raw) =
    let size = if is_nobits header then 0 else header.size in
    let rest = mapped_sections_loop reader strtab image_base raw in
    elim (checked_alloc size reader.size) [
      | ok zeros ↦ do
        bytes ← read_lenient reader (mapped_start image_base header) zeros
        sections ← rest
        ok (record { header = header; name = name_in strtab header; bytes = bytes } ∷ sections)
      | err e ↦ rest
      | panic ↦ panic
      | stuck ↦ stuck
    ]

unfoldable pub read_mapped_sections : ReadAt → ElfHeaders → ℕ → Outcome (List Section)
read_mapped_sections reader headers image_base = elim (read_section_headers reader headers) [
  | ok raw ↦ do
    strtab ← mapped_names reader headers raw image_base
    mapped_sections_loop reader strtab image_base raw
  | err e ↦ ok []
  | panic ↦ panic
  | stuck ↦ stuck
]
