-- ===== src/Elf/Build/Enough.antt =====
-- Images that are small enough are written.
use elfex.Common.{
  ℕ, ◌+◌, ◌*◌, ◌≤◌, ◌<◌, ◌≡◌, ◌≢◌, sym, ap, ◌∙◌, arith, Bytes, List, [], inl, inr, lt→ltb, length,
  replicate,
}
use elfex.Common.Outcome.{Error, ok, err}
use elfex.Common.Slices.{splice}
use elfex.Elf.{ElfImage}
use elfex.Elf.Build.{Placed, place_segments, build_sections, finish_sections, try_build}
use elfex.Elf.Build.Buffer.{write_at-ok}
use elfex.Elf.Build.Finish.{length-write_table}
use elfex.Elf.Build.Outcomes.{try_build-Ends}
use elfex.Elf.Build.Output.{max_image, grown, write_at, copy_head}
use elfex.Elf.Build.Placing.{place_segments-length}
use elfex.Elf.Build.Stored.{named}
use elfex.Elf.Build.Serialized.{table_end, written_header}
use elfex.Header
use elfex.Headers.Table.{write_table}
use elfex.Program
use elfex.Program.{ProgramHeader, Segment}
use elfex.Section.{header_size}
use elfex.Elf.Build.Within.{
  segments_cost, sections_cost, place_segments-Within, build_sections-Within, finish_sections-ok,
}

-- The places that the written image takes at most.
abbrev pub total_cost : ElfImage → ℕ
total_cost image =
    table_end image
    + segments_cost image.segments
    + (sections_cost (named image.sections)
        + 8
        + header_size image.ident.class * length (named image.sections))

copy_head-ne-err : (out : Bytes) (end : ℕ) (bs : Bytes) (e : Error) → copy_head out end bs ≢ err e
unfolding copy_head
copy_head-ne-err out end bs e = ground arith

-- The steps that succeed, up to the file header.
arrive :
    (image : ElfImage) (r : List ProgramHeader × Bytes × ℕ) (p : Placed) (out1 : Bytes)
    (f : Bytes × ℕ)
    → place_segments (replicate (Header.size image.ident.class) 0) (table_end image) image.segments
      ≡ ok r
    → build_sections r.1 r.2 image.sections ≡ ok p
    → write_at p.out
        (Header.size image.ident.class)
        (write_table r.0 [] image.ident.encoding image.ident.class)
      ≡ ok out1
    → length r.0 < 0x10000
    → length p.sections < 0x10000
    → finish_sections p out1 image.ident.encoding image.ident.class ≡ ok f
    → try_build image
      ≡ copy_head f.0
          (Header.size image.ident.class)
          (Header.write (written_header image (length r.0) (length p.sections) p.shstrndx f.1) [])
unfolding try_build
arrive image r p out1 f segments sections wrote few few' finish = rw (
  segments,
  sections,
  wrote,
  lt→ltb (length r.0) 0x10000 few,
  lt→ltb (length p.sections) 0x10000 few',
  finish,
)

try_build-copy_head :
    (image : ElfImage)
    → total_cost image ≤ max_image
    → length image.segments < 0x10000
    → length (named image.sections) < 0x10000
    → (out : Bytes) × (head : Bytes) × (try_build image
        ≡ copy_head out (Header.size image.ident.class) head)
try_build-copy_head image small few few' =
    let class = image.ident.class in
    let e = image.ident.encoding in
    let ehsize = Header.size class in
    let (r, segments, le) =
      place_segments-Within (replicate ehsize 0) (table_end image) image.segments (omega arith) in
    let many = place_segments-length _ _ image.segments segments in
    let (p, sections, le', count) =
      build_sections-Within r.1 r.2 image.sections (omega (arith, le)) in
    let table = write_table r.0 [] e class in
    let size : length table ≡ Program.size class * length image.segments =
      length-write_table r.0 e class ∙ ap (λ (n : ℕ). Program.size class * n) many in
    let wrote = write_at-ok p.out ehsize table (omega (arith, size)) in
    let out1 = splice (grown p.out (ehsize + length table)) ehsize table in
    let wide = ap (λ (n : ℕ). header_size class * n) count in
    let (f, finish) = finish_sections-ok p out1 e class (omega (arith, le, le', wide)) in
    (
      _,
      _,
      arrive image r p out1 f segments sections wrote (omega (arith, many)) (omega (arith, count))
          finish,
    )

-- An image with fewer than 2^16 segments and, with the table of the section names, fewer than 2^16
-- sections, whose tables, bytes and alignments together come to no more than 256 MiB, is written,
-- where the two copies of the identification give the file header one size.
pub try_build-total :
    (image : ElfImage)
    → total_cost image ≤ max_image
    → length image.segments < 0x10000
    → length (named image.sections) < 0x10000
    → Header.size image.header.ident.class ≡ Header.size image.ident.class
    → (bytes : Bytes) × (try_build image ≡ ok bytes)
try_build-total image small few few' same =
    let (out, head, e) = try_build-copy_head image small few few' in
    elim (try_build-Ends image) [
      | inl (bytes, built, agree) ↦ (bytes, built)
      | inr (inl (failure, refused)) ↦
          absurd (copy_head-ne-err out _ head failure (sym e ∙ refused))
      | inr (inr (panics, other)) ↦ absurd (other same)
    ]
