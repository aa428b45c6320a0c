-- ===== src/Elf/Edit.antt =====
-- src/elf/edit.rs: writing bytes at an image-relative offset.
pub mod Written
pub mod ReadBack
pub mod Sections
pub mod Hidden
use elfex.Common.{
  ℕ, ◌+◌, ◌-◌, Bytes, List, [], ◌∷◌, Option, none, some, Bool, true, false, ◌&&◌, ◌||◌, not, leb,
  ◌==◌, if◌then◌else◌, length, map,
}
use elfex.Common.Outcome.{checked_add}
use elfex.Common.Slices.{splice}
use elfex.Elf.{ElfImage}
use elfex.Elf.Inspect.{image_base}
use elfex.Program
use elfex.Program.{Segment}
use elfex.Program.SegmentType
use elfex.Section
use elfex.Section.{Section}

-- `get_mut(start..start.checked_add(data.len())?)?.copy_from_slice(data)`
unfoldable pub patch : Bytes → ℕ → Bytes → Option Bytes
patch bytes start patch_bytes = elim (checked_add start (length patch_bytes)) [
  | none ↦ none
  | some end ↦ if leb end (length bytes) then some (splice bytes start patch_bytes) else none
]

-- The test for the segment that is written.
unfoldable pub is_target : ℕ → Segment → Bool
is_target vaddr s = s.header.type == SegmentType.load && Program.contains_vaddr s vaddr

unfoldable pub patch_segment : Segment → ℕ → Bytes → Option Segment
patch_segment s vaddr patch_bytes = elim (patch s.bytes (vaddr - s.header.vaddr) patch_bytes) [
  | none ↦ none
  | some bytes ↦ some (record s { bytes = bytes })
]

-- The first such segment, written in place; `none` where there is none or it refuses the range.
unfoldable pub write_segments : List Segment → ℕ → Bytes → Option (List Segment)
write_segments [] vaddr patch_bytes = none
write_segments (s ∷ ss) vaddr patch_bytes = elim (is_target vaddr s) [
  | true ↦ elim (patch_segment s vaddr patch_bytes) [ none ↦ none | some s' ↦ some (s' ∷ ss) ]
  | false ↦ elim (write_segments ss vaddr patch_bytes) [ none ↦ none | some ss' ↦ some (s ∷ ss') ]
]

unfoldable pub write_section : ℕ → Bytes → Section → Section
write_section vaddr patch_bytes s =
    if not (Section.contains_vaddr s vaddr) || Section.is_nobits s.header
    then s
    else elim (patch s.bytes (vaddr - s.header.addr) patch_bytes) [
      | none ↦ s
      | some bytes ↦ record s { bytes = bytes }
    ]

-- `none` leaves the image as it was.
unfoldable pub write_at_ioff : ElfImage → ℕ → Bytes → Option ElfImage
write_at_ioff image ioff patch_bytes = elim (checked_add (image_base image) ioff) [
  | none ↦ none
  | some vaddr ↦ elim (write_segments image.segments vaddr patch_bytes) [
    | none ↦ none
    | some segments ↦ some (record image {
      segments = segments;
      sections = map (write_section vaddr patch_bytes) image.sections;
    })
  ]
]
