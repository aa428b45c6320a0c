-- ===== src/Tests/Validation.antt =====
-- The verdict on images whose segments overlap, or do not.
use elfex.Common.{◌≡◌, ◌≢◌, refl, arith, [], ◌∷◌, true, false, All}
use elfex.Common.Pairwise.{Pairwise}
use elfex.Elf.{ElfImage}
use elfex.Elf.Validate.{validate, load_headers}
use elfex.Elf.Validate.Overlap.{DisjointInMemory}
use elfex.Elf.Validate.Verdict.{
  EntryInside, FileFitsMemory, IsCongruent, NamesTable, has_errors-validate, is_ok-validate,
}
use elfex.Program.{Segment}
use elfex.Tests.Data.{image_of, text_segment, interp_segment}
use elfex.Validation.{has_errors, is_ok}
use mathlib.Core.Logic.{◌↔◌}

-- A segment that begins inside the text.
abbrev inner_segment : Segment
inner_segment = record text_segment { header = record text_segment.header { vaddr = 0x1004 } }

abbrev crossed : ElfImage
crossed = image_of (inner_segment ∷ interp_segment ∷ text_segment ∷ [])

crossed-loads : load_headers crossed.segments ≡ inner_segment.header ∷ text_segment.header ∷ []
unfolding load_headers
crossed-loads = refl

has_errors-validate_example : (has_errors (validate crossed) ≡ false) ↔ (
    Pairwise DisjointInMemory (load_headers crossed.segments)
    × All FileFitsMemory (load_headers crossed.segments))
has_errors-validate_example =
    has_errors-validate crossed (rw crossed-loads (omega arith, (omega arith, tt)))

is_ok-validate_example : (is_ok (validate crossed) ≡ true) ↔ (
    (load_headers crossed.segments ≢ [])
    × EntryInside crossed
    × Pairwise DisjointInMemory (load_headers crossed.segments)
    × All FileFitsMemory (load_headers crossed.segments)
    × All IsCongruent (load_headers crossed.segments)
    × NamesTable crossed)
is_ok-validate_example = is_ok-validate crossed (rw crossed-loads (omega arith, (omega arith, tt)))
