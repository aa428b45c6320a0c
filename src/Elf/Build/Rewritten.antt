-- ===== src/Elf/Build/Rewritten.antt =====
-- A parsed file, written and parsed again.
use elfex.Common.{◌≡◌, List, [], ◌∷◌, length}
use elfex.Elf.Build.SameSections.{SameSections}
use elfex.Header.RoundTrip as HeaderTrip
use elfex.Program.{Segment}
use elfex.Program.SegmentType

-- The same segment at another offset, its declared size that of its bytes.
pub record Shifted (s t : Segment) : Type 0 where
  pub header : t.header ≡ record s.header { offset = t.header.offset; filesz = length s.bytes }
  pub bytes : t.bytes ≡ s.bytes

abbrev pub AllShifted : List Segment → List Segment → Type 0
AllShifted [] [] = Unit {0}
AllShifted [] (t ∷ ts) = ⊥
AllShifted (s ∷ ss) [] = ⊥
AllShifted (s ∷ ss) (t ∷ ts) = Shifted s t × AllShifted ss ts
