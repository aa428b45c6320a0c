-- ===== src/Elf/Build/ReadBack.antt =====
-- The headers of the written file, read back.
use elfex.Common.{
  ℕ, ◌≤◌, ◌<◌, ◌≡◌, refl, sym, ap, ◌∙◌, subst, arith, Bytes, List, [], ◌∷◌, ◌++◌, All, map, length,
  drop, append-nil,
}
use elfex.Common.Outcome.{ok, u64_mod}
use elfex.Elf.{ElfImage}
use elfex.Elf.Build.{writable, final_header, try_build}
use elfex.Elf.Build.Buffer.{Holds}
use elfex.Elf.Build.Output.{max_image}
use elfex.Elf.Build.Segments.{AllPlaced, PlacedAs}
use elfex.Elf.Build.Serialized.{
  Run, try_build-Run, written_header, table_end, Holds-append, Holds-prefix,
}
use elfex.Header
use elfex.Header.{ElfHeader}
use elfex.Header.RoundTrip as HeaderTrip
use elfex.Headers.{from_slice}
use elfex.Headers.RoundTrip.{from_slice-write_table}
use elfex.Headers.Table.{write_table, write_table-append}
use elfex.Elf.Build.Finish.{write_table-onto}
use elfex.Ident.{ElfIdent}
use elfex.Ident.Endian.{Endian}
use elfex.Ident.ElfClass.{ElfClass, elf32, elf64}
use elfex.Program
use elfex.Program.{ProgramHeader, Segment}
use elfex.Program.RoundTrip as ProgramTrip
use elfex.Section.{header_size}

-- What a written file holds of its image: headers that are read back as the class can hold them,
-- which count the segments and place their table behind the file header, and every segment with its
-- bytes behind the table, within the limit of the layout.
pub record Serialized (image : ElfImage) (bytes : Bytes) : Type 0 where
  pub header : ElfHeader
  pub phdrs : List ProgramHeader
  pub read_back :
      from_slice bytes
      ≡ ok (record {
        ident = image.ident;
        header = HeaderTrip.narrow image.ident.class header;
        program_headers = map (ProgramTrip.narrow image.ident.class) phdrs;
      })
  pub laid_out :
      header
      ≡ record (final_header image.header image.ident.class
          (length image.segments)
          header.shnum
          header.shstrndx) { shoff = header.shoff }
  pub placed : AllPlaced bytes (table_end image) max_image image.segments phdrs
  pub bare : image.sections ≡ [] → header.shnum ≡ 0
  pub limit : length bytes ≤ max_image

pub sizes-small :
    (class : ElfClass)
    → (Header.size class < 0x10000) × (Program.size class < 0x10000) × (header_size class < 0x10000)
unfolding Header.size Program.size header_size
sizes-small elf32 = omega arith
sizes-small elf64 = omega arith

written_header-IsTyped :
    (image : ElfImage) (phnum shnum shstrndx shoff : ℕ)
    → HeaderTrip.IsTyped image.header
    → phnum < 0x10000
    → shnum < 0x10000
    → shstrndx < 0x10000
    → shoff ≤ max_image
    → HeaderTrip.IsTyped (written_header image phnum shnum shstrndx shoff)
unfolding final_header
written_header-IsTyped image phnum shnum shstrndx shoff t a b c d =
    let small = sizes-small image.ident.class in omega (arith, t, small, small.0, small.1, small.2)

pub writable-le : (s : Segment) → writable s ≤ s.header.filesz
unfolding writable
writable-le s = omega arith

PlacedAs-IsTyped :
    {bytes : Bytes} {lo : ℕ} {s : Segment} {h : ProgramHeader}
    → ProgramTrip.IsTyped s.header
    → PlacedAs bytes lo max_image s h
    → ProgramTrip.IsTyped h
PlacedAs-IsTyped {bytes} {lo} {s} {h} t p =
    subst ProgramTrip.IsTyped (sym p.header) (omega (arith, t, p.limit, writable-le s, t.filesz_lt))

AllPlaced-IsTyped :
    (bytes : Bytes) (lo : ℕ) (ss : List Segment) (hs : List ProgramHeader)
    → All (λ s. ProgramTrip.IsTyped s.header) ss
    → AllPlaced bytes lo max_image ss hs
    → All ProgramTrip.IsTyped hs
AllPlaced-IsTyped bytes lo [] [] t p = tt
AllPlaced-IsTyped bytes lo [] (h ∷ hs) t p = absurd p
AllPlaced-IsTyped bytes lo (s ∷ ss) [] t p = absurd p
AllPlaced-IsTyped bytes lo (s ∷ ss) (h ∷ hs) t p =
    (PlacedAs-IsTyped t.0 p.0, AllPlaced-IsTyped bytes lo ss hs t.1 p.1)

-- The file header and the table behind it, as one string.
table-behind :
    (hs : List ProgramHeader) (head : Bytes) (e : Endian) (class : ElfClass)
    → head ++ write_table hs [] e class ≡ write_table hs head e class
table-behind hs head e class =
    ap (λ (t : Bytes). head ++ t) (write_table-onto hs e class)
    ∙ sym (write_table-append hs head e class [])
    ∙ append-nil (write_table hs head e class)

module _ (image : ElfImage) {bytes : Bytes} (run : Run image bytes) where
  abbrev pub header : ElfHeader
  header = written_header image (length run.phdrs) (length run.sections) run.shstrndx run.shoff

  abbrev front : ElfIdent → Bytes
  front i = write_table run.phdrs (Header.write header []) i.encoding i.class

  begins : front image.ident ++ drop (length (front image.ident)) bytes ≡ bytes
  begins =
      let e = image.ident.encoding in
      let class = image.ident.class in
      let whole = Holds-append run.head (
        subst (λ (o : ℕ). Holds bytes o (write_table run.phdrs [] e class)) {x = Header.size class}
          (omega (arith, run.measured)) run.table) in
      Holds-prefix
        (subst (Holds bytes 0) (table-behind run.phdrs (Header.write header []) e class) whole)

  module _ (same : image.header.ident ≡ image.ident) where
    front-same : front image.header.ident ≡ front image.ident
    front-same = ap front same

    whole-same : front image.header.ident ++ drop (length (front image.ident)) bytes ≡ bytes
    whole-same =
        ap (λ (f : Bytes). f ++ drop (length (front image.ident)) bytes) front-same ∙ begins

    pub read_back :
        HeaderTrip.IsTyped image.header
        → All (λ s. ProgramTrip.IsTyped s.header) image.segments
        → from_slice bytes
          ≡ ok (record {
            ident = image.ident;
            header = HeaderTrip.narrow image.ident.class header;
            program_headers = map (ProgramTrip.narrow image.ident.class) run.phdrs;
          })
    unfolding final_header
    read_back t ts =
        let typed =
          written_header-IsTyped image (length run.phdrs) (length run.sections) run.shstrndx
            run.shoff t run.counted run.shnum_lt run.shstrndx_lt run.shoff_le in
        let tables =
          AllPlaced-IsTyped bytes (table_end image) image.segments run.phdrs ts run.placed in
        let rest = drop (length (front image.ident)) bytes in
        let size = ap (λ (b : Bytes). length b) whole-same in
        let small : length (front image.header.ident ++ rest) < u64_mod =
          omega (arith, size, run.limit) in
        let at = ap (λ (i : ElfIdent). Header.size i.class) (sym same) in
        subst
          (λ (i : ElfIdent).
            from_slice bytes
            ≡ ok (record {
              ident = i;
              header = HeaderTrip.narrow i.class header;
              program_headers = map (ProgramTrip.narrow i.class) run.phdrs;
            }))
          same
          (ap from_slice (sym whole-same)
            ∙ from_slice-write_table header run.phdrs rest typed tables refl at small)

pub try_build-Serialized :
    (image : ElfImage) {bytes : Bytes}
    → image.header.ident ≡ image.ident
    → HeaderTrip.IsTyped image.header
    → All (λ s. ProgramTrip.IsTyped s.header) image.segments
    → try_build image ≡ ok bytes
    → Serialized image bytes
unfolding final_header
try_build-Serialized image {bytes} same t ts built =
    let run = try_build-Run image built in
    record {
      header = header image run;
      phdrs = run.phdrs;
      read_back = read_back image run same t ts;
      laid_out =
          ap (λ (n : ℕ). written_header image n (length run.sections) run.shstrndx run.shoff)
            run.many;
      placed = run.placed;
      bare = run.bare;
      limit = run.limit;
    }
