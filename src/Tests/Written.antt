-- ===== src/Tests/Written.antt =====
-- An image that is written in file layout, read back and parsed.
use elfex.Common.{◌+◌, ◌≤◌, ◌<◌, ◌≡◌, refl, arith, Bytes, [], ◌∷◌, ◌⊎◌}
use elfex.Common.Outcome.{Error, ok, err, saturating_add}
use elfex.Elf.{ElfImage}
use elfex.Elf.Build.{try_build, writable}
use elfex.Elf.Build.Buffer.{Wrote, write_at_bounds}
use elfex.Elf.Build.Enough.{total_cost, try_build-total}
use elfex.Elf.Build.Outcomes.{Ends, try_build-Ends}
use elfex.Elf.Build.Output.{max_image, congruent, write_at}
use elfex.Header
use elfex.Program
use elfex.Section
use elfex.Tests.Data.{image_of, text_segment, interp_segment}

abbrev two_segments : ElfImage
two_segments = image_of (text_segment ∷ interp_segment ∷ [])

abbrev two_segments-small : total_cost two_segments ≤ max_image
unfolding Header.size Program.size Section.header_size writable
two_segments-small = omega arith

try_build-total_example : (bytes : Bytes) × (try_build two_segments ≡ ok bytes)
try_build-total_example =
    try_build-total two_segments two_segments-small (omega arith) (omega arith) refl

abbrev written : (bytes : Bytes) × (try_build two_segments ≡ ok bytes)
written = try_build-total two_segments two_segments-small (omega arith) (omega arith) refl

try_build-Ends_example : Ends two_segments (try_build two_segments)
try_build-Ends_example = try_build-Ends two_segments

write_at_bounds_example :
    ((4 + 2 ≤ max_image)
      × ((out' : Bytes) × (write_at (1 ∷ 2 ∷ []) 4 (7 ∷ 8 ∷ []) ≡ ok out')
          × Wrote (1 ∷ 2 ∷ []) 4 (7 ∷ 8 ∷ []) out'))
    ⊎ ((max_image < 4 + 2) × ((e : Error) × (write_at (1 ∷ 2 ∷ []) 4 (7 ∷ 8 ∷ []) ≡ err e)))
write_at_bounds_example = write_at_bounds (1 ∷ 2 ∷ []) 4 (7 ∷ 8 ∷ [])

congruent_at : congruent 0x40 0x1010 0x1000 ≡ 0x1010
unfolding congruent saturating_add
congruent_at = refl
