-- ===== src/Elf/Build/SectionTable.antt =====
-- The section headers of the written file, read back.
use elfex.Common.{
  ℕ, ◌+◌, ◌-◌, ◌*◌, ◌≤◌, ◌<◌, ◌≡◌, refl, sym, ap, ◌∙◌, subst, arith, Bytes, List, [], ◌∷◌, ◌++◌,
  append_assoc, inl, inr, All, map, length, drop, take-append-drop, concat, concat_onto,
  concat-append, min, max, lt→ltb,
}
use elfex.Common.Outcome.{ok, saturating_add, u64_mod}
use elfex.Common.Words.{low32-small}
use elfex.Elf.{ElfImage}
use elfex.Elf.Build.{write_section_table, final_header, try_build}
use elfex.Elf.Build.Buffer.{Holds, Holds→take}
use elfex.Elf.Build.Within.{length-section_fields}
use elfex.Elf.Build.Output.{max_image}
use elfex.Elf.Build.ReadBack.{header, read_back}
use elfex.Elf.Build.Serialized.{Run, try_build-Run, table_end}
use elfex.Elf.Build.Stored.{AllStored, StoredAs, named}
use elfex.Elf.Parse.Sections.{saturating_mul, section_headers_loop, read_section_headers}
use elfex.Header.{ElfHeader}
use elfex.Header.RoundTrip as HeaderTrip
use elfex.Headers.{ElfHeaders, from_slice}
use elfex.Ident.{ElfIdent}
use elfex.Ident.ElfClass.{ElfClass, elf32, elf64}
use elfex.Ident.Endian.{Endian}
use elfex.Program.RoundTrip as ProgramTrip
use elfex.Reader.{ReadAt, slice_reader}
use elfex.Reader.Fields.{At, At-behind}
use elfex.Section
use elfex.Section.{Section, SectionHeader, header_size}
use elfex.Section.RoundTrip as SectionTrip

abbrev rows_onto : List Section → Endian → ElfClass → Bytes → Bytes
rows_onto [] e class rest = rest
rows_onto (s ∷ ss) e class rest =
    concat_onto (Section.fields s.header e class) (rows_onto ss e class rest)

section_table-append :
    (ss : List Section) (out : Bytes) (e : Endian) (class : ElfClass) (rest : Bytes)
    → write_section_table ss out e class ++ rest ≡ out ++ rows_onto ss e class rest
unfolding write_section_table Section.write
section_table-append [] out e class rest = refl
section_table-append (s ∷ ss) out e class rest =
    let row = concat (Section.fields s.header e class) in
    section_table-append ss (out ++ row) e class rest
    ∙ append_assoc out row (rows_onto ss e class rest)
    ∙ ap (λ (r : Bytes). out ++ r)
        (concat-append (Section.fields s.header e class) (rows_onto ss e class rest))

-- A string that a buffer holds, with what follows it.
Holds→At :
    {bytes : Bytes} {off : ℕ} {bs : Bytes}
    → Holds bytes off bs
    → length bytes < u64_mod
    → At bytes off (bs ++ drop (length bs) (drop off bytes))
Holds→At {bytes} {off} {bs} h fits = record {
  from =
      sym (take-append-drop (length bs) (drop off bytes))
      ∙ ap (λ (b : Bytes). b ++ drop (length bs) (drop off bytes)) (Holds→take h);
  within = omega (arith, h.room);
  fits = fits;
}

row_behind :
    (bytes : Bytes) (off : ℕ) (h : SectionHeader) (e : Endian) (class : ElfClass) (rest : Bytes)
    → At bytes off (concat_onto (Section.fields h e class) rest)
    → At bytes (off + header_size class) rest
row_behind bytes off h e class rest a = rw (length-section_fields h e class) at (
    At-behind bytes off (concat (Section.fields h e class)) rest
      (rw (concat-append (Section.fields h e class) rest) a))

saturating-small :
    (a i n : ℕ) → a + i * n < u64_mod → saturating_add a (saturating_mul i n) ≡ a + i * n
unfolding saturating_add saturating_mul
saturating-small a i n h =
    let exact : min (i * n) (u64_mod - 1) ≡ i * n = omega arith in
    rw exact (rw (lt→ltb (a + i * n) u64_mod h) refl)

module _ (bytes : Bytes) (e : Endian) (class : ElfClass) (shoff : ℕ) where
  section_headers_loop-At :
      (ss : List Section) (index : ℕ) (rest : Bytes)
      → All (λ s. SectionTrip.IsTyped s.header) ss
      → At bytes (shoff + index * header_size class) (rows_onto ss e class rest)
      → section_headers_loop
          (slice_reader bytes)
          e
          class
          shoff
          (header_size class)
          index
          (length ss)
        ≡ ok (map (λ (s : Section). SectionTrip.narrow class s.header) ss)
  unfolding section_headers_loop
  section_headers_loop-At [] index rest t a = refl
  section_headers_loop-At (s ∷ ss) index rest t a =
      let next = row_behind bytes _ s.header e class (rows_onto ss e class rest) a in
      rw (
        saturating-small shoff index (header_size class) (omega (arith, a.within, a.fits)),
        SectionTrip.parse-At bytes (shoff + index * header_size class) e class s.header
            (rows_onto ss e class rest) t.0 a,
        section_headers_loop-At ss (index + 1) rest t.1
            (subst (λ (o : ℕ). At bytes o (rows_onto ss e class rest)) (omega arith) next),
      )

-- The headers of stored sections are in the range of their types, if those of the sections are.
StoredAs-IsTyped :
    {bytes : Bytes} {lo : ℕ} (s p : Section)
    → SectionTrip.IsTyped s.header
    → StoredAs bytes lo max_image s p
    → SectionTrip.IsTyped p.header
StoredAs-IsTyped s p t (inl (bits, same)) =
    subst (λ (q : Section). SectionTrip.IsTyped q.header) (sym same) t
StoredAs-IsTyped s p t (inr (inl (bits, none', cleared))) =
    subst (λ (q : Section). SectionTrip.IsTyped q.header) (sym cleared) (omega (arith, t))
StoredAs-IsTyped s p t (inr (inr w)) =
    subst (λ (q : Section). SectionTrip.IsTyped q.header) (sym w.header) (omega (arith, t, w.limit))

AllStored-IsTyped :
    (bytes : Bytes) (lo : ℕ) (ss ps : List Section)
    → All (λ s. SectionTrip.IsTyped s.header) ss
    → AllStored bytes lo max_image ss ps
    → All (λ p. SectionTrip.IsTyped p.header) ps
AllStored-IsTyped bytes lo [] [] t h = tt
AllStored-IsTyped bytes lo [] (p ∷ ps) t h = absurd h
AllStored-IsTyped bytes lo (s ∷ ss) [] t h = absurd h
AllStored-IsTyped bytes lo (s ∷ ss) (p ∷ ps) t h =
    (StoredAs-IsTyped s p t.0 h.0, AllStored-IsTyped bytes lo ss ps t.1 h.1)

no_headers :
    (r : ReadAt) (e : Endian) (class : ElfClass) (shoff size : ℕ) (ps : List Section)
    → length ps ≡ 0
    → section_headers_loop r e class shoff size 0 (length ps)
      ≡ ok (map (λ (s : Section). SectionTrip.narrow class s.header) ps)
unfolding section_headers_loop
no_headers r e class shoff size [] none' = refl
no_headers r e class shoff size (p ∷ ps) none' = absurd (omega arith)

-- The loop over the table of a run, whether there are sections or not.
run-section_headers :
    (image : ElfImage) {bytes : Bytes} (run : Run image bytes)
    → All (λ s. SectionTrip.IsTyped s.header) (named image.sections)
    → section_headers_loop
        (slice_reader bytes)
        image.ident.encoding
        image.ident.class
        run.shoff
        (header_size image.ident.class)
        0
        (length run.sections)
      ≡ ok (map (λ (s : Section). SectionTrip.narrow image.ident.class s.header) run.sections)
run-section_headers image {bytes} run t =
    let e = image.ident.encoding in
    let class = image.ident.class in
    let typed =
      AllStored-IsTyped bytes (table_end image) (named image.sections) run.sections t run.stored in
    elim run.section_table [
      | inl none' ↦
          no_headers (slice_reader bytes) e class run.shoff (header_size class) run.sections none'
      | inr held ↦
          let a = Holds→At held (omega (arith, run.limit)) in
          let rest =
            drop (length (write_section_table run.sections [] e class)) (drop run.shoff bytes) in
          section_headers_loop-At bytes e class run.shoff run.sections 0 rest typed (
            subst (λ (o : ℕ). At bytes o (rows_onto run.sections e class rest)) (omega arith)
              (rw (section_table-append run.sections [] e class rest) at a))
    ]

pub narrow-fields :
    (class : ElfClass) (h : ElfHeader)
    → h.shoff ≤ max_image
    → ((HeaderTrip.narrow class h).shoff ≡ h.shoff)
      × ((HeaderTrip.narrow class h).shentsize ≡ h.shentsize)
      × ((HeaderTrip.narrow class h).shnum ≡ h.shnum)
unfolding HeaderTrip.narrow
narrow-fields elf64 h small = (refl, refl, refl)
narrow-fields elf32 h small = (low32-small h.shoff (omega arith), refl, refl)

widest : {a b c : ℕ} → a ≡ b → c ≡ b → max c a ≡ b
widest p q = omega arith

-- The parts of a run that the reader of section headers goes by.
pub read-run :
    (image : ElfImage) {bytes : Bytes} (run : Run image bytes) (headers : ElfHeaders)
    → headers.ident ≡ image.ident
    → headers.header ≡ HeaderTrip.narrow image.ident.class (header image run)
    → All (λ s. SectionTrip.IsTyped s.header) (named image.sections)
    → read_section_headers (slice_reader bytes) headers
      ≡ ok (map (λ (s : Section). SectionTrip.narrow image.ident.class s.header) run.sections)
unfolding read_section_headers final_header
read-run image {bytes} run headers ident head t =
    let facts = narrow-fields image.ident.class (header image run) run.shoff_le in
    let size = ap (λ (h : ElfHeader). h.shentsize) head ∙ facts.1 in
    let loop = λ (i : ElfIdent) (o n k : ℕ).
      section_headers_loop (slice_reader bytes) i.encoding i.class o n 0 k in
    (λ i.
      loop (ident i) ((ap (λ (h : ElfHeader). h.shoff) head ∙ facts.0) i)
        (widest (ap (λ (j : ElfIdent). header_size j.class) ident) size i)
        ((ap (λ (h : ElfHeader). h.shnum) head ∙ facts.2) i))
    ∙ run-section_headers image run t

-- The file that is written for an image is read with its section headers: from_slice gives headers
-- by which read_section_headers gives, as the class can hold them, the headers of sections that
-- correspond one by one to the named sections of the image. Each of these has its own header and
-- bytes, but for the size of an empty one, which is zero, and for the offset and size of one with
-- bytes in the file: the bytes stand there, behind the program header table. The two copies of the
-- identification agree, and the fields are in the range of their types.
pub try_build-read_section_headers :
    (image : ElfImage) {bytes : Bytes}
    → image.header.ident ≡ image.ident
    → HeaderTrip.IsTyped image.header
    → All (λ s. ProgramTrip.IsTyped s.header) image.segments
    → All (λ s. SectionTrip.IsTyped s.header) (named image.sections)
    → try_build image ≡ ok bytes
    → (headers : ElfHeaders) × (from_slice bytes ≡ ok headers)
      × (sections : List Section) × (read_section_headers (slice_reader bytes) headers
          ≡ ok (map (λ (s : Section). SectionTrip.narrow image.ident.class s.header) sections))
      × AllStored bytes (table_end image) max_image (named image.sections) sections
try_build-read_section_headers image {bytes} same t ts tn built =
    let run = try_build-Run image built in
    (_, read_back image run same t ts, run.sections, read-run image run _ refl refl tn, run.stored)
