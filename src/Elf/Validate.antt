-- ===== src/Elf/Validate.antt =====
-- src/elf/validate.rs: the structural checks of an image.
pub mod Ranges
pub mod Sorted
pub mod Overlap
pub mod Verdict
use elfex.Common.{
  ℕ, suc, ◌+◌, ◌%◌, Bytes, List, [], ◌∷◌, ◌++◌, Option, none, some, Bool, true, false, not, ◌&&◌,
  ◌||◌, leb, ltb, ◌==◌, if◌then◌else◌, get_elem?,
}
use elfex.Common.Outcome.{checked_add, saturating_add}
use elfex.Elf.{ElfImage}
use elfex.Elf.Inspect.{image_base, image_span}
use elfex.Elf.Validate.Ranges.{Range, sort_ranges}
use elfex.Program.{ProgramHeader, Segment}
use elfex.Program.SegmentType
use elfex.Section.{Section}
use elfex.Section.SectionType
use elfex.Validation.{
  ValidationIssue, ValidationResult, warning, error, with_context, address, segment, segments,
  no_load_segments, entry_point_out_of_image, overlapping_segments,
  segment_file_range_out_of_bounds, segment_vaddr_misaligned, invalid_string_table_index,
}

-- The headers of the loadable segments, in order.
unfoldable pub load_headers : List Segment → List ProgramHeader
load_headers [] = []
load_headers (s ∷ ss) =
    let rest = load_headers ss in
    if s.header.type == SegmentType.load then s.header ∷ rest else rest

unfoldable pub load_issues : List ProgramHeader → List ValidationIssue
load_issues [] = warning no_load_segments "the object declares no loadable segment" ∷ []
load_issues (h ∷ hs) = []

unfoldable pub is_outside : ℕ → ℕ → ℕ → Bool
is_outside base span entry = elim (checked_add base span) [
  | some image_end ↦ ltb entry base || leb image_end entry
  | none ↦ true
]

unfoldable pub entry_issues : ElfImage → List ValidationIssue
entry_issues image =
    let entry = image.header.entry in
    let found =
      with_context
        (warning entry_point_out_of_image "the entry point lies outside the mapped image")
        (address entry)
      ∷ [] in
    if entry == 0
    then []
    else if is_outside (image_base image) (image_span image) entry
    then found
    else []

-- The memory ranges of the loadable segments, numbered from `index` on.
unfoldable pub load_ranges : ℕ → List ProgramHeader → List Range
load_ranges index [] = []
load_ranges index (h ∷ hs) =
    record { start = h.vaddr; end = saturating_add h.vaddr h.memsz; index = index }
    ∷ load_ranges (suc index) hs

-- `ranges.windows(2)`
unfoldable pub overlap_issues : List Range → List ValidationIssue
overlap_issues [] = []
overlap_issues (a ∷ []) = []
overlap_issues (a ∷ b ∷ rs) =
    let rest = overlap_issues (b ∷ rs) in
    let issue =
      with_context (error overlapping_segments "two loadable segments overlap in memory")
        (segments a.index b.index) in
    if ltb b.start a.end then issue ∷ rest else rest

unfoldable pub size_issues : ℕ → ProgramHeader → List ValidationIssue
size_issues index h =
    let issue =
      with_context
        (error segment_file_range_out_of_bounds
          "a segment declares more file bytes than memory bytes")
        (segment index) in
    if ltb h.memsz h.filesz then issue ∷ [] else []

unfoldable pub is_misaligned : ProgramHeader → Bool
is_misaligned h = ltb 1 h.align && not (h.offset % h.align == h.vaddr % h.align) && ltb 0 h.filesz

unfoldable pub alignment_issues : ℕ → ProgramHeader → List ValidationIssue
alignment_issues index h =
    let issue =
      with_context
        (warning segment_vaddr_misaligned
          "a segment file offset is not congruent with its virtual address")
        (segment index) in
    if is_misaligned h then issue ∷ [] else []

unfoldable pub header_issues : ℕ → List ProgramHeader → List ValidationIssue
header_issues index [] = []
header_issues index (h ∷ hs) =
    size_issues index h ++ (alignment_issues index h ++ header_issues (suc index) hs)

-- `sections.get(index).is_some_and(..)`
unfoldable pub names_strtab : List Section → ℕ → Bool
names_strtab sections index = elim (get_elem? sections index) [
  | none ↦ false
  | some section ↦ section.header.type == SectionType.strtab
]

unfoldable pub table_issues : ElfImage → List ValidationIssue
table_issues image =
    let issue =
      warning invalid_string_table_index
        "the section-name string table index names no string table" in
    if image.header.shnum == 0
    then []
    else if names_strtab image.sections image.header.shstrndx
    then []
    else issue ∷ []

unfoldable pub validate : ElfImage → ValidationResult
validate image =
    let loads = load_headers image.segments in
    record {
      issues =
          load_issues loads
          ++ (entry_issues image
              ++ (overlap_issues (sort_ranges (load_ranges 0 loads))
                  ++ (header_issues 0 loads ++ table_issues image)));
    }
