-- ===== src/Elf/Inspect.antt =====
-- src/elf/inspect.rs: addresses, image-relative offsets and derived tables.
use elfex.Common.{
  ℕ, ◌+◌, ◌-◌, Bytes, List, [], ◌∷◌, ◌++◌, Option, none, some, Bool, true, false, not, ◌&&◌, leb,
  ltb, ◌==◌, if◌then◌else◌, min, take, replicate, length, find, any,
}
use elfex.Common.Outcome.{Outcome, ok, ◌>>=◌, checked_add, saturating_add}
use elfex.Common.Slices.{get_from, bytes_eq}
use elfex.Dynamic
use elfex.Dynamic.{DynamicEntry}
use elfex.Elf.{ElfImage, Load, geometry}
use elfex.Notes
use elfex.Notes.{Note}
use elfex.Program
use elfex.Program.{Segment}
use elfex.Program.SegmentType
use elfex.Reloc
use elfex.Reloc.{RelocationSection}
use elfex.Section.{Section}
use elfex.Section.SectionType
use elfex.Symbol
use elfex.Symbol.{Symbol, local, global, weak, SymbolBind}
use elfex.Tls.{TlsInfo, from_header}

-- `load_records`
unfoldable pub load_records : List Segment → List Load
load_records [] = []
load_records (s ∷ ss) =
    let rest = load_records ss in
    if s.header.type == SegmentType.load
    then (record { vaddr = s.header.vaddr; memsz = s.header.memsz; align = s.header.align }) ∷ rest
    else rest

unfoldable pub image_base : ElfImage → ℕ
image_base image = (geometry (load_records image.segments)).base

unfoldable pub image_span : ElfImage → ℕ
image_span image = (geometry (load_records image.segments)).span

-- The test of `ioff_to_offset` for the segment whose file bytes hold an address.
unfoldable pub has_file_byte : ℕ → Segment → Bool
has_file_byte vaddr s =
    s.header.type == SegmentType.load
    && leb s.header.vaddr vaddr
    && ltb vaddr (saturating_add s.header.vaddr s.header.filesz)

unfoldable pub ioff_to_offset : ElfImage → ℕ → Option ℕ
ioff_to_offset image ioff = elim (checked_add (image_base image) ioff) [
  | none ↦ none
  | some vaddr ↦ elim (find (has_file_byte vaddr) image.segments) [
    | none ↦ none
    | some s ↦ checked_add s.header.offset (vaddr - s.header.vaddr)
  ]
]

-- The first segment that holds an address, of any type.
unfoldable pub covering : List Segment → ℕ → Option Segment
covering segments vaddr = find (λ s. Program.contains_vaddr s vaddr) segments

unfoldable pub segment_by_ioff : ElfImage → ℕ → Option Segment
segment_by_ioff image ioff = elim (checked_add (image_base image) ioff) [
  | none ↦ none
  | some vaddr ↦ covering image.segments vaddr
]

-- `out[..from_data]` from the available bytes, and zeros behind them.
unfoldable pub zero_filled : Bytes → ℕ → Bytes
zero_filled available len =
    let from_data = min (length available) len in
    take from_data available ++ replicate (len - from_data) 0

unfoldable pub read_segment : Segment → ℕ → ℕ → Bytes
read_segment s vaddr len = elim (get_from s.bytes (vaddr - s.header.vaddr)) [
  | none ↦ zero_filled [] len
  | some available ↦ zero_filled available len
]

unfoldable pub read_at_vaddr : ElfImage → ℕ → ℕ → Option Bytes
read_at_vaddr image vaddr len = elim (covering image.segments vaddr) [
  | none ↦ none
  | some s ↦ some (read_segment s vaddr len)
]

unfoldable pub read_ioff : ElfImage → ℕ → ℕ → Option Bytes
read_ioff image ioff len = elim (checked_add (image_base image) ioff) [
  | none ↦ none
  | some vaddr ↦ read_at_vaddr image vaddr len
]

-- The sum cannot overflow where `segment_by_ioff` has found a segment.
unfoldable pub read_at_ioff : ElfImage → ℕ → ℕ → Option Bytes
read_at_ioff image ioff len = elim (segment_by_ioff image ioff) [
  | none ↦ none
  | some s ↦ Program.data_at_vaddr s (image_base image + ioff) len
]

unfoldable pub contains_ioff_range : ElfImage → ℕ → ℕ → Bool
contains_ioff_range image ioff len = elim (checked_add ioff len) [
  | none ↦ false
  | some end ↦ leb end (image_span image)
]

unfoldable pub section_by_name : ElfImage → Bytes → Option Section
section_by_name image name = find (λ s. bytes_eq s.name name) image.sections

unfoldable pub dynamic : ElfImage → Outcome (Option (List DynamicEntry))
dynamic image = elim (find (λ s. s.header.type == SegmentType.dynamic) image.segments) [
  | none ↦ ok none
  | some s ↦ do
    table ← Dynamic.parse s.bytes image.ident.encoding image.ident.class
    ok (some table)
]

-- The bytes of the first section with a name, or none.
unfoldable pub section_bytes : ElfImage → Bytes → Bytes
section_bytes image name = elim (section_by_name image name) [ none ↦ [] | some s ↦ s.bytes ]

unfoldable pub symbols_from : ElfImage → Bytes → Bytes → Outcome (List Symbol)
symbols_from image table strings = elim (section_by_name image table) [
  | none ↦ ok []
  | some s ↦
      Symbol.parse s.bytes (section_bytes image strings) image.ident.encoding image.ident.class
]

abbrev pub dynsym_name : Bytes
dynsym_name = b'.' ∷ b'd' ∷ b'y' ∷ b'n' ∷ b's' ∷ b'y' ∷ b'm' ∷ []

abbrev pub dynstr_name : Bytes
dynstr_name = b'.' ∷ b'd' ∷ b'y' ∷ b'n' ∷ b's' ∷ b't' ∷ b'r' ∷ []

abbrev pub symtab_name : Bytes
symtab_name = b'.' ∷ b's' ∷ b'y' ∷ b'm' ∷ b't' ∷ b'a' ∷ b'b' ∷ []

abbrev pub strtab_name : Bytes
strtab_name = b'.' ∷ b's' ∷ b't' ∷ b'r' ∷ b't' ∷ b'a' ∷ b'b' ∷ []

unfoldable pub dynamic_symbols : ElfImage → Outcome (List Symbol)
dynamic_symbols image = symbols_from image dynsym_name dynstr_name

unfoldable pub symbols : ElfImage → Outcome (List Symbol)
symbols image = symbols_from image symtab_name strtab_name

unfoldable pub relocations_of : ElfImage → List Section → Outcome (List RelocationSection)
relocations_of image [] = ok []
relocations_of image (s ∷ ss) =
    let parsed = λ (is_rela : Bool).
      Reloc.parse s.bytes is_rela image.ident.encoding image.ident.class >>= λ table.
      relocations_of image ss >>= λ tables. ok (table ∷ tables) in
    let skipped = relocations_of image ss in
    if s.header.type == SectionType.rela
    then parsed true
    else if s.header.type == SectionType.rel
    then parsed false
    else skipped

unfoldable pub relocations : ElfImage → Outcome (List RelocationSection)
relocations image = relocations_of image image.sections

-- `notes.extend(Note::parse_all(..)?)` for each block
unfoldable pub notes_of : ElfImage → List Bytes → Outcome (List Note)
notes_of image [] = ok []
notes_of image (block ∷ blocks) = do
  first ← Notes.parse_all block image.ident.encoding
  more ← notes_of image blocks
  ok (first ++ more)

unfoldable pub note_segments : List Segment → List Bytes
note_segments [] = []
note_segments (s ∷ ss) =
    let rest = note_segments ss in
    if s.header.type == SegmentType.note then s.bytes ∷ rest else rest

unfoldable pub note_sections : List Section → List Bytes
note_sections [] = []
note_sections (s ∷ ss) =
    let rest = note_sections ss in
    if s.header.type == SectionType.note then s.bytes ∷ rest else rest

unfoldable pub notes : ElfImage → Outcome (List Note)
notes image =
    if any (λ s. s.header.type == SegmentType.note) image.segments
    then notes_of image (note_segments image.segments)
    else notes_of image (note_sections image.sections)

unfoldable pub build_id : ElfImage → Outcome (Option Bytes)
build_id image = do
  all ← notes image
  ok (elim (find (λ n. Notes.is_gnu n Notes.nt_gnu_build_id) all) [
    | none ↦ none
    | some n ↦ some n.descriptor
  ])

unfoldable pub tls : ElfImage → Option TlsInfo
tls image = elim (find (λ s. s.header.type == SegmentType.tls) image.segments) [
  | none ↦ none
  | some s ↦ some (from_header s.header)
]

unfoldable pub needed_libraries : ElfImage → Outcome (List Bytes)
needed_libraries image = do
  table ← dynamic image
  ok (elim table [
    | none ↦ []
    | some entries ↦ Dynamic.needed entries (section_bytes image dynstr_name)
  ])

unfoldable pub is_exported : Symbol → Bool
is_exported symbol =
    not (symbol.shndx == 0)
    && elim symbol.bind [ global ↦ true | weak ↦ true | local ↦ false | SymbolBind.other _ ↦ false ]

unfoldable pub exported : List Symbol → List Symbol
exported [] = []
exported (symbol ∷ symbols) =
    let rest = exported symbols in if is_exported symbol then symbol ∷ rest else rest

unfoldable pub exports : ElfImage → Outcome (List Symbol)
exports image = do table ← dynamic_symbols image; ok (exported table)
