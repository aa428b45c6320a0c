-- ===== src/ElfFile/Trailing.antt =====
-- The trailing bytes of a parsed file: those behind every structure of its image.
use elfex.Common.{ℕ, ◌+◌, ◌*◌, ◌≤◌, ◌<◌, ◌≡◌, arith, List, [], ◌∷◌, false, lt→ltb, All}
use elfex.Common.Outcome.{u64_mod, checked_add-some}
use elfex.Elf.{ElfImage}
use elfex.Elf.Parse
use elfex.Header
use elfex.Program
use elfex.Elf.Parse.{read_image}
use elfex.ElfFile.{reach, segment_end, section_end, segments_end, sections_end, last_structure_end}
use elfex.Program.{Segment}
use elfex.Section.{Section, header_size, is_nobits}

reach-ge : (end start len : ℕ) → end ≤ reach end start len
unfolding reach
reach-ge end start len = ground arith

reach-covers : (end start len : ℕ) → start + len < u64_mod → start + len ≤ reach end start len
unfolding reach
reach-covers end start len h = rw (checked_add-some start len h, reach) (omega arith)

segment_end-ge : (end : ℕ) (s : Segment) → end ≤ segment_end end s
unfolding segment_end
segment_end-ge end s = ground (arith, reach-ge end s.header.offset s.header.filesz)

section_end-ge : (end : ℕ) (s : Section) → end ≤ section_end end s
unfolding section_end
section_end-ge end s = ground (arith, reach-ge end s.header.offset s.header.size)

segments_end-ge : (end : ℕ) (ss : List Segment) → end ≤ segments_end end ss
unfolding segments_end
segments_end-ge end [] = omega arith
segments_end-ge end (s ∷ ss) =
    omega (arith, segment_end-ge end s, segments_end-ge (segment_end end s) ss)

sections_end-ge : (end : ℕ) (ss : List Section) → end ≤ sections_end end ss
unfolding sections_end
sections_end-ge end [] = omega arith
sections_end-ge end (s ∷ ss) =
    omega (arith, section_end-ge end s, sections_end-ge (section_end end s) ss)

-- The file bytes of a segment end at `end` or in front of it.
abbrev pub EndsBy : ℕ → Segment → Type 0
EndsBy end s =
    0 < s.header.filesz
    → s.header.offset + s.header.filesz < u64_mod
    → s.header.offset + s.header.filesz ≤ end

-- The bytes of a section, unless it has none in the file, end at `end` or in front of it.
abbrev pub SectionEndsBy : ℕ → Section → Type 0
SectionEndsBy end s =
    is_nobits s.header ≡ false
    → 0 < s.header.size
    → s.header.offset + s.header.size < u64_mod
    → s.header.offset + s.header.size ≤ end

segment_end-covers : (end : ℕ) (s : Segment) → EndsBy (segment_end end s) s
unfolding segment_end
segment_end-covers end s pos fits =
    rw (lt→ltb 0 s.header.filesz pos, segment_end)
      (reach-covers end s.header.offset s.header.filesz fits)

section_end-covers : (end : ℕ) (s : Section) → SectionEndsBy (section_end end s) s
unfolding section_end
section_end-covers end s kept pos fits =
    rw (kept, lt→ltb 0 s.header.size pos, section_end)
      (reach-covers end s.header.offset s.header.size fits)

segments_end-covers :
    (end top : ℕ) (ss : List Segment) → segments_end end ss ≤ top → All (EndsBy top) ss
unfolding segments_end
segments_end-covers end top [] h = tt
segments_end-covers end top (s ∷ ss) h = (
  λ pos fits.
      omega (arith, segment_end-covers end s pos fits, segments_end-ge (segment_end end s) ss, h),
  segments_end-covers (segment_end end s) top ss h,
)

sections_end-covers :
    (end top : ℕ) (ss : List Section) → sections_end end ss ≤ top → All (SectionEndsBy top) ss
unfolding sections_end
sections_end-covers end top [] h = tt
sections_end-covers end top (s ∷ ss) h = (
  λ kept pos fits.
      omega
        (arith, section_end-covers end s kept pos fits, sections_end-ge (section_end end s) ss, h),
  sections_end-covers (section_end end s) top ss h,
)

-- No segment and no section of an image has file bytes behind its last structure, unless their
-- range overflows.
pub last_structure_end-covers :
    (image : ElfImage)
    → All (EndsBy (last_structure_end image)) image.segments
      × All (SectionEndsBy (last_structure_end image)) image.sections
unfolding last_structure_end
last_structure_end-covers image =
    let class = image.ident.class in
    let start =
      reach (Header.size class) image.header.phoff (image.header.phnum * Program.size class) in
    let middle = segments_end start image.segments in
    let top =
      reach-ge (sections_end middle image.sections) image.header.shoff
        (image.header.shnum * header_size class) in
    (
      segments_end-covers start (last_structure_end image) image.segments
          (omega (arith, sections_end-ge middle image.sections, top)),
      sections_end-covers middle (last_structure_end image) image.sections top,
    )
