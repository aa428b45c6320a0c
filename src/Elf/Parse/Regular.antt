-- ===== src/Elf/Parse/Regular.antt =====
-- The segments and the sections that are read from a source of bytes are in the range of their
-- types, and named by UTF-8.
use elfex.Common.{
  ℕ, ◌+◌, zero, suc, Bytes, List, [], ◌∷◌, Option-cases, inl, inr, ◌==◌, ◌||◌, All, map, max,
}
use elfex.Common.Gives.{Gives, Gives-ok, Gives-bind, Gives-any, Gives-if, Gives-stuck, Gives-panic}
use elfex.Common.Outcome.{Outcome, ok, err, panic, stuck, ◌>>=◌, saturating_add}
use elfex.Elf.Parse.{file_segment_bytes, file_segments, mapped_segment_bytes, mapped_segments}
use elfex.Elf.Parse.Sections.{
  section_headers_loop, read_section_headers, saturating_mul, unwrap_or, name_in, name_table,
  section_names, file_section_bytes, name_at, file_sections_loop, read_file_sections,
}
use elfex.Elf.Parse.Source.{checked_len}
use elfex.Elf.Regular.{IsRegular}
use elfex.Headers.{ElfHeaders}
use elfex.Ident.ElfClass.{ElfClass}
use elfex.Ident.Endian.{Endian}
use elfex.Program.{ProgramHeader, Segment}
use elfex.Program.Typed as ProgramTyped
use elfex.Reader.{ReadAt, read_bytes_at}
use elfex.Reader.Typed.{Honest}
use elfex.Section
use elfex.Section.{Section, SectionHeader, header_size}
use elfex.Section.Typed as SectionTyped
use elfex.StringTable
use elfex.StringTable.Names.{IsName, get-IsName, empty-IsName}

abbrev pub SegmentIsRead : ElfClass → Segment → Type 0
SegmentIsRead class s = ProgramTyped.IsRead class s.header

pub name_in-IsName : (table : Bytes) (header : SectionHeader) → IsName (name_in table header)
unfolding name_in
name_in-IsName table header = elim (Option-cases (StringTable.get table header.name_index)) [
  | inl absent ↦ rw (absent, name_in) empty-IsName
  | inr (name, found) ↦ rw (found, name_in) (get-IsName table name header.name_index found)
]

names-IsName : (table : Bytes) (raw : List SectionHeader) → All IsName (map (name_in table) raw)
names-IsName table [] = tt
names-IsName table (header ∷ raw) = (name_in-IsName table header, names-IsName table raw)

name_at-IsName : (names : List Bytes) (i : ℕ) → All IsName names → IsName (name_at names i)
unfolding name_at
name_at-IsName [] i h = empty-IsName
name_at-IsName (name ∷ names) zero h = h.0
name_at-IsName (name ∷ names) (suc i) h = name_at-IsName names i h.1

unwrap_or-Gives :
    {A : Type 0} {P : A → Type 0} (m : Outcome A) (a : A)
    → Gives P m
    → P a
    → Gives P (unwrap_or m a)
unwrap_or-Gives (ok b) a h k = h
unwrap_or-Gives (err e) a h k = Gives-ok k
unwrap_or-Gives panic a h k = Gives-panic
unwrap_or-Gives stuck a h k = Gives-stuck

section_names-IsName :
    (reader : ReadAt) (headers : ElfHeaders) (raw : List SectionHeader)
    → Gives (All IsName) (section_names reader headers raw)
unfolding section_names
section_names-IsName reader headers raw = elim (Option-cases (name_table headers raw)) [
  | inl absent ↦ rw (absent, section_names) (Gives-ok tt)
  | inr (header, found) ↦
      let table =
        checked_len header.size reader.size >>= λ len. read_bytes_at reader header.offset len in
      rw (found, section_names)
        (unwrap_or-Gives (table >>= λ bytes. ok (map (name_in bytes) raw)) []
          (Gives-bind table Gives-any (λ bytes a. Gives-ok (names-IsName bytes raw))) tt)
]

module _ (reader : ReadAt) (honest : Honest reader) where
  section_headers_loop-IsRead :
      (e : Endian) (class : ElfClass) (shoff size index left : ℕ)
      → Gives
          (All (SectionTyped.IsRead class))
          (section_headers_loop reader e class shoff size index left)
  unfolding section_headers_loop
  section_headers_loop-IsRead e class shoff size index zero = Gives-ok tt
  section_headers_loop-IsRead e class shoff size index (suc left) =
      let offset = saturating_add shoff (saturating_mul index size) in
      Gives-bind (Section.parse reader offset e class)
        (SectionTyped.parse-IsRead reader honest offset e class)
        (λ header h.
          Gives-bind (section_headers_loop reader e class shoff size (index + 1) left)
            (section_headers_loop-IsRead e class shoff size (index + 1) left)
            (λ raw hs. Gives-ok (h, hs)))

  pub read_section_headers-IsRead :
      (headers : ElfHeaders)
      → Gives (All (SectionTyped.IsRead headers.ident.class)) (read_section_headers reader headers)
  unfolding read_section_headers
  read_section_headers-IsRead headers =
      section_headers_loop-IsRead headers.ident.encoding headers.ident.class headers.header.shoff
        (max headers.header.shentsize (header_size headers.ident.class)) 0 headers.header.shnum

  file_sections_loop-IsRegular :
      (class : ElfClass) (names : List Bytes) (index : ℕ) (raw : List SectionHeader)
      → All IsName names
      → All (SectionTyped.IsRead class) raw
      → Gives (All (IsRegular class)) (file_sections_loop reader names index raw)
  unfolding file_sections_loop
  file_sections_loop-IsRegular class names index [] n h = Gives-ok tt
  file_sections_loop-IsRegular class names index (header ∷ raw) n h =
      Gives-bind (file_section_bytes reader header) Gives-any (λ bytes a.
        Gives-bind (file_sections_loop reader names (index + 1) raw)
          (file_sections_loop-IsRegular class names (index + 1) raw n h.1)
          (λ sections s.
            Gives-ok
              (record { typed = h.0.0; fits = h.0.1; name = name_at-IsName names index n }, s)))

  pub read_file_sections-IsRegular :
      (headers : ElfHeaders)
      → Gives (All (IsRegular headers.ident.class)) (read_file_sections reader headers)
  unfolding read_file_sections
  read_file_sections-IsRegular headers =
      Gives-if (headers.header.shoff == 0 || headers.header.shnum == 0) (Gives-ok tt) (
        Gives-bind (read_section_headers reader headers) (read_section_headers-IsRead headers)
          (λ raw h.
            Gives-bind (section_names reader headers raw) (section_names-IsName reader headers raw)
              (λ names n. file_sections_loop-IsRegular headers.ident.class names 0 raw n h)))

  pub file_segments-IsRead :
      (class : ElfClass) (headers : List ProgramHeader)
      → All (ProgramTyped.IsRead class) headers
      → Gives (All (SegmentIsRead class)) (file_segments reader headers)
  unfolding file_segments
  file_segments-IsRead class [] h = Gives-ok tt
  file_segments-IsRead class (header ∷ headers) h =
      Gives-bind (file_segment_bytes reader header) Gives-any (λ bytes a.
        Gives-bind (file_segments reader headers) (file_segments-IsRead class headers h.1)
          (λ segments s. Gives-ok (h.0, s)))

  pub mapped_segments-IsRead :
      (class : ElfClass) (base : ℕ) (headers : List ProgramHeader)
      → All (ProgramTyped.IsRead class) headers
      → Gives (All (SegmentIsRead class)) (mapped_segments reader base headers)
  unfolding mapped_segments
  mapped_segments-IsRead class base [] h = Gives-ok tt
  mapped_segments-IsRead class base (header ∷ headers) h =
      Gives-bind (mapped_segment_bytes reader base header) Gives-any (λ bytes a.
        Gives-bind (mapped_segments reader base headers)
          (mapped_segments-IsRead class base headers h.1) (λ segments s. Gives-ok (h.0, s)))
