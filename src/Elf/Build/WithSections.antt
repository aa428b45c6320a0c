-- ===== src/Elf/Build/WithSections.antt =====
-- Parsing the written file of an image gives its segments and its sections again.
use elfex.Common.{
  ℕ, ◌<◌, ◌≡◌, ◌≢◌, refl, sym, ap, ◌∙◌, subst, arith, Bytes, List, [], ◌∷◌, ◌⊎◌, inl, inr, All, map,
  length, take, drop, get_elem?, some,
}
use elfex.Common.Pairwise.{All-map}
use elfex.Common.Elements.{get_elem?-lt, get_elem?-map}
use elfex.Common.Outcome.{ok}
use elfex.Elf.{ElfImage}
use elfex.Elf.Build.{final_header, try_build}
use elfex.Elf.Build.Buffer.{Holds→take}
use elfex.Elf.Build.Named.{names_table, named-IsNamed, IsNamed}
use elfex.Elf.Build.NamedFields.{named-IsTyped, named-FitsClass}
use elfex.Elf.Build.NamesTable.{HeldTable, run-HeldTable}
use elfex.Elf.Build.Names.{assign_name_offsets}
use elfex.Elf.Build.Output.{max_image}
use elfex.Elf.Build.ReadBack.{header, read_back}
use elfex.Elf.Build.Reparsed.{
  SameSegments, narrow-all, AllPlaced-IsPlaced, AllPlaced-Same, no_sections,
}
use elfex.Elf.Build.SameSections.{listed, SameSections, stored-SameSections, AllStored-HasBytes}
use elfex.Elf.Build.SectionTable.{narrow-fields, read-run}
use elfex.Elf.Build.Serialized.{Run, try_build-Run, table_end}
use elfex.Elf.Build.Stored.{AllStored, StoredAs, AllStored-length, named, names_index}
use elfex.Elf.Parse.{parse}
use elfex.Elf.Parse.Layouts.{IsPlaced, segment_in, parse-from_slice}
use elfex.Elf.Parse.SectionBytes.{section_in, read_file_sections-slice}
use elfex.Elf.Parse.Sections.{read_file_sections, read_section_headers}
use elfex.Header
use elfex.Header.{ElfHeader}
use elfex.Header.RoundTrip as HeaderTrip
use elfex.Headers.{ElfHeaders}
use elfex.Ident.ElfClass.{ElfClass, elf32, elf64}
use elfex.Program.{ProgramHeader}
use elfex.Program.RoundTrip as ProgramTrip
use elfex.Program.RoundTrip.{FitsClass}
use elfex.Reader.{slice_reader}
use elfex.Section.{Section, SectionHeader}
use elfex.Section.RoundTrip as SectionTrip
use elfex.Elf.Regular.{IsRegular}
use elfex.StringTable.Names.{IsName}

abbrev headers_of : List Section → List SectionHeader
headers_of = map (λ (p : Section). p.header)

stored-narrow :
    (class : ElfClass) (bytes : Bytes) (lo : ℕ) (s p : Section)
    → SectionTrip.FitsClass class s.header
    → StoredAs bytes lo max_image s p
    → SectionTrip.narrow class p.header ≡ p.header
unfolding SectionTrip.narrow
stored-narrow elf64 bytes lo s p f h = refl
stored-narrow elf32 bytes lo s p f (inl (nobits, same)) =
    SectionTrip.narrow_lem elf32 p.header
      (subst (λ (q : Section). SectionTrip.FitsElf32 q.header) (sym same) f)
stored-narrow elf32 bytes lo s p f (inr (inl (bits, none', cleared))) =
    SectionTrip.narrow_lem elf32 p.header
      (subst (λ (q : Section). SectionTrip.FitsElf32 q.header) (sym cleared) (ground (arith, f)))
stored-narrow elf32 bytes lo s p f (inr (inr w)) = SectionTrip.narrow_lem elf32 p.header (
    subst (λ (q : Section). SectionTrip.FitsElf32 q.header) (sym w.header)
      (ground (arith, f, w.limit)))

narrow-stored :
    (class : ElfClass) (bytes : Bytes) (lo : ℕ) (ss ps : List Section)
    → All (λ (s : Section). SectionTrip.FitsClass class s.header) ss
    → AllStored bytes lo max_image ss ps
    → map (λ (p : Section). SectionTrip.narrow class p.header) ps ≡ headers_of ps
narrow-stored class bytes lo [] [] f h = refl
narrow-stored class bytes lo [] (p ∷ ps) f h = absurd h
narrow-stored class bytes lo (s ∷ ss) [] f h = absurd h
narrow-stored class bytes lo (s ∷ ss) (p ∷ ps) f h =
    rw (stored-narrow class bytes lo s p f.0 h.0, narrow-stored class bytes lo ss ps f.1 h.1)

named-SameSections :
    (bytes : Bytes) (lo : ℕ) (ss ps : List Section)
    → All (IsNamed (names_table ss)) (named ss)
    → AllStored bytes lo max_image (named ss) ps
    → SameSections (listed ss) (map (section_in bytes (names_table ss)) (headers_of ps))
unfolding names_table assign_name_offsets
named-SameSections bytes lo [] [] good stored = tt
named-SameSections bytes lo [] (p ∷ ps) good stored = absurd stored
named-SameSections bytes lo (s ∷ ss) ps good stored =
    stored-SameSections bytes (names_table (s ∷ ss)) (0 ∷ []) lo _ ps good stored

narrow-shstrndx :
    (class : ElfClass) (h : ElfHeader) → (HeaderTrip.narrow class h).shstrndx ≡ h.shstrndx
unfolding HeaderTrip.narrow
narrow-shstrndx elf32 h = refl
narrow-shstrndx elf64 h = refl

size-pos : (class : ElfClass) → 0 < Header.size class
unfolding Header.size
size-pos elf32 = omega arith
size-pos elf64 = omega arith

sections-cases : (ss : List Section) → (ss ≡ []) ⊎ (ss ≢ [])
sections-cases [] = inl refl
sections-cases (s ∷ ss) = inr (λ e. absurd (cc))

-- The sections of the file of a run, where there are some.
module _ (image : ElfImage) {bytes : Bytes} (run : Run image bytes) (headers : ElfHeaders)
    (ident : headers.ident ≡ image.ident)
    (head : headers.header ≡ HeaderTrip.narrow image.ident.class (header image run))
    (typed : All (λ (s : Section). SectionTrip.IsTyped s.header) (named image.sections))
    (fits : All
      (λ (s : Section). SectionTrip.FitsClass image.ident.class s.header)
      (named image.sections)) where
  read_raw : read_section_headers (slice_reader bytes) headers ≡ ok (headers_of run.sections)
  read_raw =
      read-run image run headers ident head typed
      ∙ ap ok (
          narrow-stored image.ident.class bytes (table_end image) (named image.sections)
            run.sections fits run.stored)

  run-read :
      (p : Section)
      → get_elem? run.sections run.shstrndx ≡ some p
      → HeldTable bytes (names_table image.sections) p
      → read_file_sections (slice_reader bytes) headers
        ≡ ok (map (section_in bytes (names_table image.sections)) (headers_of run.sections))
  unfolding final_header
  run-read p found t =
      let facts = narrow-fields image.ident.class (header image run) run.shoff_le in
      let shoff = ap (λ (h : ElfHeader). h.shoff) head ∙ facts.0 in
      let shnum = ap (λ (h : ElfHeader). h.shnum) head ∙ facts.2 in
      let index =
        ap (λ (h : ElfHeader). h.shstrndx) head
        ∙ narrow-shstrndx image.ident.class (header image run) in
      let many = get_elem?-lt run.sections run.shstrndx p found in
      let started : 0 < run.shoff = elim run.started [
        | inl none' ↦ absurd (omega (arith, none', many))
        | inr behind ↦ omega (arith, behind, size-pos image.ident.class)
      ] in
      let table : take p.header.size (drop p.header.offset bytes) ≡ names_table image.sections =
        ap (λ (k : ℕ). take k (drop p.header.offset bytes)) t.size ∙ Holds→take t.held in
      read_file_sections-slice bytes headers (headers_of run.sections) p.header
        (λ z. omega (arith, z, shoff, started)) (λ z. omega (arith, z, shnum, many)) read_raw
        (ap (get_elem? (headers_of run.sections)) index
          ∙ get_elem?-map (λ (q : Section). q.header) run.sections run.shstrndx p found)
        t.type (omega (arith, t.held.room, t.size), omega (arith, t.limit, t.size))
        (AllStored-HasBytes bytes (table_end image) (named image.sections) run.sections run.stored)
        (omega (arith, run.limit))
      ∙ ap (λ (b : Bytes). ok (map (section_in bytes b) (headers_of run.sections))) table

module _ (class : ElfClass) (ss : List Section) (regular : All (IsRegular class) ss)
    (small : length (names_table ss) < 0x100000000) where
  regular-IsNamed : All (IsNamed (names_table ss)) (named ss)
  regular-IsNamed = named-IsNamed ss small (
      All-map {P = (IsRegular class)} {Q = (λ (s : Section). IsName s.name)} (λ s r. r.name) ss
        regular)

  regular-IsTyped : All (λ (s : Section). SectionTrip.IsTyped s.header) (named ss)
  regular-IsTyped = named-IsTyped ss small (
      All-map {P = (IsRegular class)} {Q = (λ (s : Section). SectionTrip.IsTyped s.header)}
        (λ s r. r.typed) ss regular)

  regular-FitsClass : All (λ (s : Section). SectionTrip.FitsClass class s.header) (named ss)
  regular-FitsClass = named-FitsClass class ss small (
      All-map {P = (IsRegular class)} {Q = (λ (s : Section). SectionTrip.FitsClass class s.header)}
        (λ s r. r.fits) ss regular)

-- The sections of a written file are read, and are those of the image.
abbrev SectionsRead : ElfImage → Bytes → ElfHeaders → Type 0
SectionsRead image bytes headers =
    (ts : List Section) × (read_file_sections (slice_reader bytes) headers ≡ ok ts)
    × SameSections (listed image.sections) ts

run-SectionsRead :
    (image : ElfImage) {bytes : Bytes} (run : Run image bytes) (headers : ElfHeaders)
    → headers.ident ≡ image.ident
    → headers.header ≡ HeaderTrip.narrow image.ident.class (header image run)
    → All (IsRegular image.ident.class) image.sections
    → SectionsRead image bytes headers
unfolding final_header
run-SectionsRead image {bytes} run headers ident head regular =
    elim (sections-cases image.sections) [
      | inl bare ↦
          let facts = narrow-fields image.ident.class (header image run) run.shoff_le in
          let shnum = ap (λ (h : ElfHeader). h.shnum) head ∙ facts.2 in
          (
            [],
            no_sections (slice_reader bytes) headers (shnum ∙ run.bare bare),
            subst (λ (ss : List Section). SameSections (listed ss) []) (sym bare) tt,
          )
      | inr some' ↦
          let (p, found, t) = run-HeldTable image run some' in
          let class = image.ident.class in
          let ss = image.sections in
          let small : length (names_table ss) < 0x100000000 = omega (arith, t.limit) in
          (
            _,
            run-read image run headers ident head (regular-IsTyped class ss regular small)
                (regular-FitsClass class ss regular small) p found t,
            named-SameSections bytes (table_end image) ss run.sections
                (regular-IsNamed class ss regular small) run.stored,
          )
    ]

-- The file header of a written file: that of the image, with the tables' offsets and counts.
abbrev pub file_header : ElfImage → ℕ → ElfHeader
file_header image shoff =
    record (final_header image.header image.ident.class (length image.segments)
      (length (named image.sections)) (names_index image.sections)) { shoff = shoff }

run-header :
    (image : ElfImage) {bytes : Bytes} (run : Run image bytes)
    → header image run ≡ file_header image run.shoff
unfolding final_header
run-header image {bytes} run = rw (
  run.many,
  AllStored-length bytes (table_end image) max_image (named image.sections) run.sections run.stored,
  run.index,
)

pub parse-try_build_image :
    (image : ElfImage) {bytes : Bytes}
    → image.header.ident ≡ image.ident
    → HeaderTrip.IsTyped image.header
    → All (λ s. ProgramTrip.IsTyped s.header) image.segments
    → All (λ s. FitsClass image.ident.class s.header) image.segments
    → All (IsRegular image.ident.class) image.sections
    → try_build image ≡ ok bytes
    → (parsed : ElfImage) × (parse bytes ≡ ok parsed)
      × (parsed.ident ≡ image.ident)
      × ((shoff : ℕ) × (parsed.header
            ≡ HeaderTrip.narrow image.ident.class (file_header image shoff)))
      × SameSegments image.segments parsed.segments
      × SameSections (listed image.sections) parsed.sections
parse-try_build_image image {bytes} same t ts fits regular built =
    let run = try_build-Run image built in
    let class = image.ident.class in
    let lo = table_end image in
    let whole = narrow-all class bytes lo image.segments run.phdrs fits run.placed in
    let headers : ElfHeaders = record {
      ident = image.ident;
      header = HeaderTrip.narrow class (header image run);
      program_headers = map (ProgramTrip.narrow class) run.phdrs;
    } in
    let (sections, read, kept) = run-SectionsRead image run headers refl refl regular in
    (
      _,
      parse-from_slice bytes headers sections (omega (arith, run.limit))
          (read_back image run same t ts)
          (subst (All (IsPlaced bytes)) (sym whole)
            (AllPlaced-IsPlaced bytes lo image.segments run.phdrs run.placed))
          read,
      refl,
      (run.shoff, ap (HeaderTrip.narrow class) (run-header image run)),
      subst (λ (hs : List ProgramHeader). SameSegments image.segments (map (segment_in bytes) hs))
          (sym whole) (AllPlaced-Same bytes lo image.segments run.phdrs run.placed),
      kept,
    )
