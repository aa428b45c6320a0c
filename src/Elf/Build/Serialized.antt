-- ===== src/Elf/Build/Serialized.antt =====
-- What the written file holds: headers that are read back, and the bytes of every segment.
use elfex.Common.{
  ◌⊎◌, ℕ, ◌+◌, ◌-◌, ◌*◌, ◌≤◌, ◌<◌, ◌≡◌, sym, ap, ◌∙◌, arith, Bytes, List, [], ◌++◌, inl, inr, not,
  ltb, ltb→lt, Bool-cases, length, length-append, drop, replicate, length-replicate, le-cases,
  get_elem?, take-append-drop,
}
use elfex.Common.Elements.{get_elem?-append_left, get_elem?-append_right}
use elfex.Common.Outcome.{ok, bind-ok-parts, reject_if, ErrorKind}
use elfex.Elf.{ElfImage}
use elfex.Elf.Build.{
  Placed, place_segments, build_sections, final_header, finish_sections, try_build,
  write_section_table,
}
use elfex.Elf.Build.Buffer.{
  Holds, Keeps, Keeps-trans, Keeps-narrow, Holds-Keeps, Holds→take, Wrote, write_at-Wrote,
}
use elfex.Elf.Build.Finish.{
  build_sections-Sectioned, build_sections-bare, finish_sections-Finished, Finished, Headed,
  copy_head-Headed, length-write_table,
}
use elfex.Elf.Build.Output.{max_image, write_at, copy_head}
use elfex.Elf.Build.Placing.{place_segments-AllMoved, place_segments-length}
use elfex.Elf.Build.Stored.{AllStored, AllStored-Keeps, named, names_index}
use elfex.Elf.Build.Segments.{AllPlaced, AllPlaced-Keeps, Moves}
use elfex.Header
use elfex.Header.{ElfHeader}
use elfex.Headers.Table.{write_table}
use elfex.Ident.ElfClass.{ElfClass, elf32, elf64}
use elfex.Program
use elfex.Section.{Section}
use elfex.Ident.Endian.{Endian}
use elfex.Program.{ProgramHeader, Segment}

-- What stands at an offset and what stands behind it, as one string.
pub Holds-append :
    {out : Bytes} {off : ℕ} {as' bs : Bytes}
    → Holds out off as'
    → Holds out (off + length as') bs
    → Holds out off (as' ++ bs)
Holds-append {out} {off} {as'} {bs} h k = record {
  room = omega (arith, h.room, k.room, length-append as' bs);
  same = λ i b. elim (le-cases (length as') i) [
    | inl behind ↦
        ap (get_elem? out) (omega arith)
        ∙ k.same (i - length as') (omega (arith, length-append as' bs))
        ∙ sym (get_elem?-append_right as' bs i behind)
    | inr within ↦ h.same i within ∙ sym (get_elem?-append_left as' bs i within)
  ];
}

-- A buffer that holds a string at its start begins with it.
pub Holds-prefix : {out bs : Bytes} → Holds out 0 bs → bs ++ drop (length bs) out ≡ out
Holds-prefix {out} {bs} h =
    ap (λ (p : Bytes). p ++ drop (length bs) out) (sym (Holds→take h))
    ∙ take-append-drop (length bs) out

-- The file header as written.
abbrev pub written_header : ElfImage → ℕ → ℕ → ℕ → ℕ → ElfHeader
written_header image phnum shnum shstrndx shoff =
    record (final_header image.header image.ident.class phnum shnum shstrndx) { shoff = shoff }

abbrev pub table_end : ElfImage → ℕ
table_end image =
    Header.size image.ident.class + Program.size image.ident.class * length image.segments

-- The steps of a run that succeeds.
pub record Run (image : ElfImage) (bytes : Bytes) : Type 0 where
  pub phdrs : List ProgramHeader
  pub sections : List Section
  pub shstrndx : ℕ
  pub shoff : ℕ
  pub many : length phdrs ≡ length image.segments
  pub counted : length phdrs < 0x10000
  pub shnum_lt : length sections < 0x10000
  pub index : shstrndx ≡ names_index image.sections
  pub shstrndx_lt : shstrndx < 0x10000
  pub shoff_le : shoff ≤ max_image
  pub started : (length sections ≡ 0) ⊎ (Header.size image.ident.class ≤ shoff)
  pub bare : image.sections ≡ [] → length sections ≡ 0
  pub head :
      Holds bytes 0
        (Header.write (written_header image (length phdrs) (length sections) shstrndx shoff) [])
  pub measured :
      length
        (Header.write (written_header image (length phdrs) (length sections) shstrndx shoff) [])
      ≡ Header.size image.ident.class
  pub table :
      Holds bytes
        (Header.size image.ident.class)
        (write_table phdrs [] image.ident.encoding image.ident.class)
  pub placed : AllPlaced bytes (table_end image) max_image image.segments phdrs
  pub stored : AllStored bytes (table_end image) max_image (named image.sections) sections
  pub section_table :
      (length sections ≡ 0)
      ⊎ Holds bytes shoff (write_section_table sections [] image.ident.encoding image.ident.class)
  pub limit : length bytes ≤ max_image

size-le : (class : ElfClass) → Header.size class ≤ 64
unfolding Header.size
size-le elf32 = omega arith
size-le elf64 = omega arith

few→lt : (n : ℕ) (k : ErrorKind) → reject_if (not (ltb n 0x10000)) k ≡ ok tt → n < 0x10000
few→lt n k h = elim (Bool-cases (ltb n 0x10000)) [
  | inl few ↦ ltb→lt n _ few
  | inr many ↦ absurd (let e = rw many at h in cc)
]

-- What follows the loops: the tables and the file header.
module _ {ehsize shoff : ℕ} {out1 out2 table head bytes : Bytes} {p : Placed} {e : Endian}
    {class : ElfClass} (w : Wrote p.out ehsize table out1)
    (end : Finished p e class out1 out2 shoff) (h : Headed out2 ehsize head bytes) where
  -- They leave alone what stands behind the program headers, up to the cursor.
  after_Keeps : {lo hi : ℕ} → ehsize + length table ≤ lo → hi ≤ p.cursor → Keeps lo hi p.out bytes
  after_Keeps {lo} {hi} l u = Keeps-trans (Keeps-narrow l (omega arith) (w.after hi)) (
      Keeps-trans (Keeps-narrow (omega arith) u end.keeps)
        (Keeps-narrow (omega arith) (omega arith) (h.keeps hi)))

  later_Keeps :
      {start cursor : ℕ} {out : Bytes}
      → ehsize + length table ≤ start
      → Moves out cursor p.out p.cursor
      → Keeps start cursor out bytes
  later_Keeps fits moves =
      Keeps-trans (Keeps-narrow (omega arith) (omega arith) moves.keeps)
        (after_Keeps fits moves.forward)

  table_Holds : ehsize + length table ≤ p.cursor → Holds bytes ehsize table
  table_Holds fits =
      Holds-Keeps (Holds-Keeps w.held end.keeps (omega arith) fits)
        (h.keeps (ehsize + length table)) (omega arith) (omega arith)

  started_at : ehsize + length table ≤ p.cursor → (length p.sections ≡ 0) ⊎ (ehsize ≤ shoff)
  started_at fits = elim end.table [
    | inl none' ↦ inl none'
    | inr (behind, held) ↦ inr (omega arith)
  ]

  section_table_Holds :
      ehsize ≤ p.cursor
      → (length p.sections ≡ 0) ⊎ Holds bytes shoff (write_section_table p.sections [] e class)
  section_table_Holds fits = elim end.table [
    | inl none' ↦ inl none'
    | inr (behind, held) ↦ inr (
        Holds-Keeps held (h.keeps (shoff + length (write_section_table p.sections [] e class)))
          (omega (arith, behind)) (omega arith))
  ]

module _ (image : ElfImage) (r : List ProgramHeader × Bytes × ℕ) (p : Placed) (out1 : Bytes) where
  module _ (f : Bytes × ℕ) {bytes : Bytes} where
    run :
        let class = image.ident.class in
        let e = image.ident.encoding in
        place_segments (replicate (Header.size class) 0) (table_end image) image.segments ≡ ok r
        → build_sections r.1 r.2 image.sections ≡ ok p
        → write_at p.out (Header.size class) (write_table r.0 [] e class) ≡ ok out1
        → length r.0 < 0x10000
        → length p.sections < 0x10000
        → finish_sections p out1 e class ≡ ok f
        → copy_head f.0
            (Header.size class)
            (Header.write (written_header image (length r.0) (length p.sections) p.shstrndx f.1) [])
          ≡ ok bytes
        → Run image bytes
    run segments sections wrote few few' finish copied =
        let class = image.ident.class in
        let e = image.ident.encoding in
        let ehsize = Header.size class in
        let table = write_table r.0 [] e class in
        let w = write_at-Wrote p.out ehsize table wrote in
        let many =
          place_segments-length (replicate ehsize 0) (table_end image) image.segments segments in
        let size : length table ≡ Program.size class * length image.segments =
          length-write_table r.0 e class ∙ ap (λ (n : ℕ). Program.size class * n) many in
        let start : table_end image ≤ max_image = omega (arith, w.bound, size) in
        let moved =
          place_segments-AllMoved (replicate ehsize 0) (table_end image) image.segments start
            segments in
        let built = build_sections-Sectioned r.1 r.2 image.sections moved.0.limit sections in
        let end = finish_sections-Finished p out1 e class built.moves.limit finish in
        let h = copy_head-Headed f.0 ehsize _ copied in
        let first : length (replicate {A = ℕ} ehsize 0) ≤ max_image =
          omega (arith, length-replicate {A = ℕ} ehsize 0, size-le class) in
        record {
          phdrs = r.0;
          sections = p.sections;
          shstrndx = p.shstrndx;
          shoff = f.1;
          many = many;
          counted = few;
          shnum_lt = few';
          index = built.index;
          shstrndx_lt = built.index_lt;
          shoff_le = end.offset;
          started = started_at w end h (omega (arith, size, moved.0.forward, built.moves.forward));
          bare = build_sections-bare r.1 r.2 image.sections sections;
          head = h.held;
          measured = h.measured;
          table = table_Holds w end h (omega (arith, size, moved.0.forward, built.moves.forward));
          placed =
              AllPlaced-Keeps image.segments r.0 (omega arith) moved.0.limit
                (later_Keeps w end h (omega (arith, size)) built.moves) moved.1;
          stored =
              AllStored-Keeps (named image.sections) p.sections moved.0.forward built.moves.limit
                (after_Keeps w end h (omega (arith, size, moved.0.forward)) (omega arith))
                built.stored;
          section_table =
              section_table_Holds w end h
                (omega (arith, size, moved.0.forward, built.moves.forward));
          limit = omega (
            arith,
            h.size,
            end.bounded
                (omega (arith, w.size, w.bound, built.moves.bounded (moved.0.bounded first))),
          );
        }

pub try_build-Run :
    (image : ElfImage) {bytes : Bytes} → try_build image ≡ ok bytes → Run image bytes
unfolding try_build
try_build-Run image {bytes} h =
    let class = image.ident.class in
    let e = image.ident.encoding in
    let ehsize = Header.size class in
    let (r, h1, segments) =
      bind-ok-parts (place_segments (replicate ehsize 0) (table_end image) image.segments) _ h in
    let (p, h2, sections) = bind-ok-parts (build_sections r.1 r.2 image.sections) _ h1 in
    let (out1, h3, wrote) =
      bind-ok-parts (write_at p.out ehsize (write_table r.0 [] e class)) _ h2 in
    let (u, h4, few) = bind-ok-parts (reject_if (not (ltb (length r.0) 0x10000)) _) _ h3 in
    let (v, h5, few') = bind-ok-parts (reject_if (not (ltb (length p.sections) 0x10000)) _) _ h4 in
    let (f, h6, finish) = bind-ok-parts (finish_sections p out1 e class) _ h5 in
    run image r p out1 f segments sections wrote (few→lt _ _ few) (few→lt _ _ few') finish h6
