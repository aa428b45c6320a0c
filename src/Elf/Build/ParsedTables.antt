-- ===== src/Elf/Build/ParsedTables.antt =====
-- The tables of an image that is written and parsed again.
use elfex.Common.{
  ◌≡◌, refl, sym, ap, ◌∙◌, subst, Bytes, List, [], ◌∷◌, Option, some, none, inl, inr, false, All,
  All-append, find,
}
use elfex.Common.Outcome.{ok, ◌>>=◌}
use elfex.Common.Slices.{bytes_eq}
use elfex.Dynamic
use elfex.Elf.{ElfImage}
use elfex.Elf.Build.{try_build}
use elfex.Elf.Build.Derived.{
  note_sections-Same, note_sections-names, relocations_of-Same, relocations_of-names,
}
use elfex.Elf.Build.DerivedTables.{
  IsHonest, Alike, SameBytes, by_name-Alike, find-behind, listed-cases, by_type-Alike,
  note_segments-Same, any-Same,
}
use elfex.Elf.Build.Names.{empty_shstrtab, shstrtab_name}
use elfex.Elf.Build.Reparsed.{SameSegments}
use elfex.Elf.Build.SameSections.{SameSections, listed}
use elfex.Elf.Build.WithSections.{parse-try_build_image}
use elfex.Elf.Inspect.{
  section_by_name, section_bytes, symbols_from, symbols, dynamic_symbols, dynsym_name, dynstr_name,
  symtab_name, strtab_name, notes, notes_of, note_segments, note_sections, relocations,
  relocations_of, dynamic, needed_libraries, tls,
}
use elfex.Elf.Parse.{parse}
use elfex.Elf.Parse.Whole.{IsWhole}
use elfex.Elf.Regular.{IsRegularImage}
use elfex.Ident.{ElfIdent}
use elfex.Program.{ProgramHeader}
use elfex.Program.SegmentType
use elfex.Section.{Section, is_nobits}
use elfex.Tls.{from_header}

-- The two images have the same notes, relocations, symbols and thread-local template, the same
-- dynamic table, and need the same libraries.
pub record SameTables (image parsed : ElfImage) : Type 0 where
  pub notes : notes parsed ≡ notes image
  pub relocations : relocations parsed ≡ relocations image
  pub symbols : symbols parsed ≡ symbols image
  pub dynamic_symbols : dynamic_symbols parsed ≡ dynamic_symbols image
  pub dynamic : dynamic parsed ≡ dynamic image
  pub needed : needed_libraries parsed ≡ needed_libraries image
  pub tls : tls parsed ≡ tls image

module _ (image parsed : ElfImage) (ident : parsed.ident ≡ image.ident)
    (segments : SameSegments image.segments parsed.segments)
    (sections : SameSections (listed image.sections) parsed.sections)
    (whole : All IsWhole image.segments) (honest : All IsHonest (listed image.sections)) where
  notes_of-ident : (blocks : List Bytes) → notes_of parsed blocks ≡ notes_of image blocks
  unfolding notes_of
  notes_of-ident [] = refl
  notes_of-ident (block ∷ blocks) =
      rw (ap (λ (i : ElfIdent). i.encoding) ident, notes_of-ident blocks)

  listed-note_sections : note_sections (listed image.sections) ≡ note_sections image.sections
  listed-note_sections = elim (listed-cases image.sections) [
    | inl same ↦ ap note_sections same
    | inr more ↦ ap note_sections more ∙ note_sections-names image.sections
  ]

  notes-Same : notes parsed ≡ notes image
  unfolding notes
  notes-Same = rw (
    any-Same image.segments parsed.segments segments,
    note_segments-Same image.segments parsed.segments whole segments,
    note_sections-Same (listed image.sections) parsed.sections sections,
    listed-note_sections,
    notes_of-ident (note_segments image.segments),
    notes_of-ident (note_sections image.sections),
  )

  relocations-Same : relocations parsed ≡ relocations image
  unfolding relocations
  relocations-Same =
      relocations_of-Same image parsed ident (listed image.sections) parsed.sections sections
      ∙ elim (listed-cases image.sections) [
        | inl same ↦ ap (relocations_of image) same
        | inr more ↦
            ap (relocations_of image) more ∙ relocations_of-names image parsed ident image.sections
      ]

  by_name :
      (name : Bytes)
      → bytes_eq name shstrtab_name ≡ false
      → bytes_eq shstrtab_name name ≡ false
      → Alike SameBytes (section_by_name image name) (section_by_name parsed name)
  unfolding section_by_name
  by_name name other other' =
      let found =
        by_name-Alike name (listed image.sections) parsed.sections other honest sections in
      let p = λ (s : Section). bytes_eq s.name name in
      let same : find p (listed image.sections) ≡ find p image.sections =
        elim (listed-cases image.sections) [
          | inl same ↦ ap (find p) same
          | inr more ↦ ap (find p) more ∙ find-behind p image.sections empty_shstrtab other'
        ] in
      subst (λ (m : Option Section). Alike SameBytes m (find p parsed.sections)) same found

  section_bytes-Same :
      (name : Bytes)
      → bytes_eq name shstrtab_name ≡ false
      → bytes_eq shstrtab_name name ≡ false
      → section_bytes parsed name ≡ section_bytes image name
  unfolding section_bytes
  section_bytes-Same name other other' = elim (by_name name other other') [
    | inl (a, b) ↦ rw (a, b, section_bytes) refl
    | inr (s, t, a, b, same) ↦ rw (a, b, section_bytes) same
  ]

  symbols_from-Same :
      (table strings : Bytes)
      → bytes_eq table shstrtab_name ≡ false
      → bytes_eq shstrtab_name table ≡ false
      → bytes_eq strings shstrtab_name ≡ false
      → bytes_eq shstrtab_name strings ≡ false
      → symbols_from parsed table strings ≡ symbols_from image table strings
  unfolding symbols_from
  symbols_from-Same table strings a b c d = elim (by_name table a b) [
    | inl (x, y) ↦ rw (x, y, symbols_from) refl
    | inr (s, t, x, y, same) ↦
        rw (x, y, symbols_from)
          (rw (
            same,
            section_bytes-Same strings c d,
            ap (λ (i : ElfIdent). i.encoding) ident,
            ap (λ (i : ElfIdent). i.class) ident,
          ))
  ]

  dynamic-Same : dynamic parsed ≡ dynamic image
  unfolding dynamic
  dynamic-Same =
      elim (by_type-Alike SegmentType.dynamic image.segments parsed.segments (λ z. absurd (cc))
        whole segments) [
          | inl (a, b) ↦ rw (a, b, dynamic) refl
          | inr (s, t, a, b, same) ↦
              rw (a, b, dynamic)
                (rw (
                  same.0,
                  ap (λ (i : ElfIdent). i.encoding) ident,
                  ap (λ (i : ElfIdent). i.class) ident,
                ))
        ]

  tls-Same : tls parsed ≡ tls image
  unfolding tls from_header
  tls-Same =
      elim (by_type-Alike SegmentType.tls image.segments parsed.segments (λ z. absurd (cc)) whole
        segments) [
          | inl (a, b) ↦ rw (a, b, tls) refl
          | inr (s, t, a, b, same) ↦
              rw (a, b, tls) (ap (λ (h : ProgramHeader). some (from_header h)) same.1)
        ]

  needed-Same : needed_libraries parsed ≡ needed_libraries image
  unfolding needed_libraries bytes_eq
  needed-Same = rw dynamic-Same (
      ap
        (λ (strings : Bytes). dynamic image >>= λ table.
          ok (elim table [ none ↦ [] | some entries ↦ Dynamic.needed entries strings ]))
        (section_bytes-Same dynstr_name refl refl))

  pub tables-Same : SameTables image parsed
  unfolding symbols dynamic_symbols bytes_eq
  tables-Same = record {
    notes = notes-Same;
    relocations = relocations-Same;
    symbols = symbols_from-Same symtab_name strtab_name refl refl refl refl;
    dynamic_symbols = symbols_from-Same dynsym_name dynstr_name refl refl refl refl;
    dynamic = dynamic-Same;
    needed = needed-Same;
    tls = tls-Same;
  }

pub listed-IsHonest : (ss : List Section) → All IsHonest ss → All IsHonest (listed ss)
unfolding is_nobits
listed-IsHonest ss h = elim (listed-cases ss) [
  | inl same ↦ subst (All IsHonest) (sym same) h
  | inr more ↦
      subst (All IsHonest) (sym more)
        (All-append IsHonest ss (empty_shstrtab ∷ []) h ((λ nobits. cc), tt))
]

-- An image that is written and parsed again gives the same notes, relocations, symbols, dynamic
-- table, needed libraries and thread-local template, or the same errors. The image is regular: its
-- two identifications agree, its fields are in the range of their types and its class, and its
-- sections' names are UTF-8 without a zero byte. Each segment has as many bytes as its header
-- declares, or none if its type is null, and each section of a type without bytes has none.
pub tables-parse-try_build :
    (image : ElfImage) {bytes : Bytes}
    → IsRegularImage image
    → All IsWhole image.segments
    → All IsHonest image.sections
    → try_build image ≡ ok bytes
    → (parsed : ElfImage) × (parse bytes ≡ ok parsed) × SameTables image parsed
tables-parse-try_build image r whole honest built =
    let (parsed, read, ident, header, segments, sections) =
      parse-try_build_image image r.ident r.header r.segments r.fits r.sections built in
    (
      parsed,
      read,
      tables-Same image parsed ident segments sections whole
          (listed-IsHonest image.sections honest),
    )
