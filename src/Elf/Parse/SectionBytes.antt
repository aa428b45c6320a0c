-- ===== src/Elf/Parse/SectionBytes.antt =====
-- Reading the sections of a slice in file layout: each has its name, and the bytes that its header
-- names.
use elfex.Common.{
  ℕ, ◌+◌, ◌<◌, ◌≡◌, ◌≢◌, refl, sym, ap, ◌∙◌, arith, Bytes, List, [], ◌∷◌, some, false, ◌==◌,
  Bool-cases, inl, inr, ==→eq, ==→ne, eq→==, ne→==, if◌then◌else◌, All, map, length, take, drop,
  get_elem?,
}
use elfex.Common.Elements.{get_elem?-drop}
use elfex.Common.{drop-drop}
use elfex.Common.Outcome.{ok, u64_mod}
use elfex.Elf.Parse.Layouts.{InFile, checked_len-ok, read_bytes_at-slice}
use elfex.Elf.Parse.Sections.{
  file_section_bytes, file_sections_loop, name_at, name_in, name_table, read_file_sections,
  read_section_headers, section_names,
}
use elfex.Headers.{ElfHeaders}
use elfex.Reader.{slice_reader}
use elfex.Section.{Section, SectionHeader, is_nobits}
use elfex.Section.SectionType

-- What the file holds of the section of a header, with its name in a table of names.
unfoldable pub section_in : Bytes → Bytes → SectionHeader → Section
section_in bytes table header = record {
  header = header;
  name = name_in table header;
  bytes = if is_nobits header then [] else take header.size (drop header.offset bytes);
}

-- The range that a header names lies in the file, where it names one.
abbrev pub HasBytes : Bytes → SectionHeader → Type 0
HasBytes bytes header =
    is_nobits header ≡ false → header.size ≢ 0 → InFile bytes header.offset header.size

file_section_bytes-slice :
    (bytes table : Bytes) (header : SectionHeader)
    → HasBytes bytes header
    → length bytes < u64_mod
    → file_section_bytes (slice_reader bytes) header ≡ ok (section_in bytes table header).bytes
unfolding section_in file_section_bytes
file_section_bytes-slice bytes table header placed h = elim (Bool-cases (is_nobits header)) [
  | inl nobits ↦ rw (nobits, section_in, file_section_bytes) refl
  | inr bits ↦ elim (Bool-cases (header.size == 0)) [
    | inl empty ↦
        rw (bits, empty, section_in, file_section_bytes)
          (ap (λ n. ok (take n (drop header.offset bytes))) (sym (==→eq header.size 0 empty)))
    | inr full ↦
        let range = placed bits (==→ne _ _ full) in
        rw
          (
            bits,
            full,
            checked_len-ok bytes header.size (omega (arith, range.0)) range.1,
            read_bytes_at-slice bytes header.offset header.size range h,
            section_in,
            file_section_bytes,
          )
          refl
  ]
]

-- The name at an index, where the names from there on are those of a list.
name_at-first :
    (names rest : List Bytes) (name : Bytes) (index : ℕ)
    → drop index names ≡ name ∷ rest
    → name_at names index ≡ name
unfolding name_at
name_at-first names rest name index e =
    let found : get_elem? names index ≡ some name =
      ap (get_elem? names) (omega arith)
      ∙ sym (get_elem?-drop index names 0)
      ∙ ap (λ (l : List Bytes). get_elem? l 0) e in
    rw (found, name_at)

drop-next :
    (names rest : List Bytes) (name : Bytes) (index : ℕ)
    → drop index names ≡ name ∷ rest
    → drop (index + 1) names ≡ rest
drop-next names rest name index e = sym (drop-drop index 1 names) ∙ ap (drop 1) e

file_sections_loop-slice :
    (bytes table : Bytes) (names : List Bytes) (index : ℕ) (raw : List SectionHeader)
    → drop index names ≡ map (name_in table) raw
    → All (HasBytes bytes) raw
    → length bytes < u64_mod
    → file_sections_loop (slice_reader bytes) names index raw
      ≡ ok (map (section_in bytes table) raw)
unfolding file_sections_loop section_in
file_sections_loop-slice bytes table names index [] e placed h = refl
file_sections_loop-slice bytes table names index (header ∷ raw) e placed h =
    let rest = map (name_in table) raw in
    rw
      (
        file_section_bytes-slice bytes table header placed.0 h,
        file_sections_loop-slice bytes table names (index + 1) raw
            (drop-next names rest (name_in table header) index e) placed.1 h,
        name_at-first names rest (name_in table header) index e,
        section_in,
      )
      refl

-- The names, where `shstrndx` names a string table whose bytes lie in the file.
section_names-slice :
    (bytes : Bytes) (headers : ElfHeaders) (raw : List SectionHeader) (header : SectionHeader)
    → get_elem? raw headers.header.shstrndx ≡ some header
    → header.type ≡ SectionType.strtab
    → InFile bytes header.offset header.size
    → length bytes < u64_mod
    → section_names (slice_reader bytes) headers raw
      ≡ ok (map (name_in (take header.size (drop header.offset bytes))) raw)
unfolding section_names name_table
section_names-slice bytes headers raw header found type range h =
    rw
      (
        found,
        eq→== header.type SectionType.strtab type,
        checked_len-ok bytes header.size (omega (arith, range.0)) range.1,
        read_bytes_at-slice bytes header.offset header.size range h,
        section_names,
        name_table,
      )
      refl

-- The sections of a file, from the headers of its table.
pub read_file_sections-slice :
    (bytes : Bytes) (headers : ElfHeaders) (raw : List SectionHeader) (header : SectionHeader)
    → headers.header.shoff ≢ 0
    → headers.header.shnum ≢ 0
    → read_section_headers (slice_reader bytes) headers ≡ ok raw
    → get_elem? raw headers.header.shstrndx ≡ some header
    → header.type ≡ SectionType.strtab
    → InFile bytes header.offset header.size
    → All (HasBytes bytes) raw
    → length bytes < u64_mod
    → read_file_sections (slice_reader bytes) headers
      ≡ ok (map (section_in bytes (take header.size (drop header.offset bytes))) raw)
unfolding read_file_sections
read_file_sections-slice bytes headers raw header at many read found type range placed h =
    let table = take header.size (drop header.offset bytes) in
    rw
      (
        ne→== headers.header.shoff 0 at,
        ne→== headers.header.shnum 0 many,
        read,
        section_names-slice bytes headers raw header found type range h,
        file_sections_loop-slice bytes table (map (name_in table) raw) 0 raw refl placed h,
      )
      refl
