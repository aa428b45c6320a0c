-- ===== src/Tests/Layout.antt =====
-- An image in mapped layout, with a relocation, and one that cannot be mapped.
use elfex.Common.{◌-◌, ◌≡◌, refl, arith, Bytes, [], ◌∷◌, none, All, inl, inr}
use elfex.Common.Outcome.{ok, panic, saturating_add}
use elfex.Elf.{ElfImage, geometry, geometry_of, extent, extend, lower, align_up}
use elfex.Elf.Build.Loading.{StartsInside, to_mapped_image_at-panic}
use elfex.Elf.Build.Mapped.{relocate, to_mapped_image_at}
use elfex.Elf.Build.Relocated.{Moved, relocate-Moved}
use elfex.Elf.Inspect.{image_base, image_span, load_records}
use elfex.Header
use elfex.Header.RoundTrip as HeaderTrip
use elfex.Ident.Endian.{little}
use elfex.Program
use elfex.Program.{Segment}
use elfex.Program.RoundTrip as ProgramTrip
use elfex.Program.SegmentType
use elfex.Reloc
use elfex.Reloc.{RelocationEntry, RelocKind, relocation_kind}
use elfex.Tests.Data.{image_of, text_segment, text_header, interp_segment}

-- Two bytes of data behind the headers.
abbrev data_segment : Segment
data_segment = record {
  header = record text_header { flags = 6; vaddr = 0x1200; filesz = 2; memsz = 2 };
  bytes = 0xaa ∷ 0xbb ∷ [];
}

abbrev loaded : ElfImage
loaded = image_of (text_segment ∷ data_segment ∷ interp_segment ∷ [])

loaded_base : image_base loaded ≡ 0x1000
unfolding image_base geometry geometry_of extent extend lower align_up load_records saturating_add
loaded_base = refl

loaded_span : image_span loaded ≡ 0x1000
unfolding image_span geometry geometry_of extent extend lower align_up load_records saturating_add
loaded_span = refl

abbrev inside : All (StartsInside (image_base loaded) (image_span loaded)) loaded.segments
inside =
    rw (loaded_base, loaded_span)
      (
        inr (inr (omega arith)),
        (
          inr (inr (omega arith)),
          (inl (λ (h : SegmentType.interp ≡ SegmentType.load). absurd (omega arith)), tt),
        ),
      )

-- A loadable segment without memory, behind all others.
abbrev empty_segment : Segment
empty_segment = record {
  header = record text_segment.header { vaddr = 0x9000; filesz = 0; memsz = 0 };
  bytes = [];
}

abbrev far : ElfImage
far = image_of (text_segment ∷ empty_segment ∷ [])

far_base : image_base far ≡ 0x1000
unfolding image_base geometry geometry_of extent extend lower align_up load_records saturating_add
far_base = refl

far_span : image_span far ≡ 0x1000
unfolding image_span geometry geometry_of extent extend lower align_up load_records saturating_add
far_span = refl

to_mapped_image_at-panic_example : to_mapped_image_at far 0x400000 ≡ panic
to_mapped_image_at-panic_example =
    to_mapped_image_at-panic far 0x400000 (text_segment ∷ []) empty_segment [] refl
      (omega (arith, far_span)) (rw (far_base, far_span) (inr (inr (omega arith)), tt)) refl
      (omega (arith, far_base, far_span))

-- A relative relocation of the first eight bytes.
abbrev pointer : RelocationEntry
pointer = record { offset = 0x1000; symbol = 0; r_type = 8; addend = none }

abbrev word_at_base : Bytes
word_at_base = 0x40 ∷ 0x10 ∷ 0 ∷ 0 ∷ 0 ∷ 0 ∷ 0 ∷ 0 ∷ 0xcc ∷ []

pointer_kind : relocation_kind 62 8 ≡ RelocKind.relative
unfolding relocation_kind Reloc.kind_x86_64
pointer_kind = refl

relocate-Moved_example :
    (out : Bytes) × (relocate loaded 0x3000 word_at_base pointer ≡ ok out)
    × Moved little 8 (0x1000 - image_base loaded) 0x3000 word_at_base out
relocate-Moved_example =
    relocate-Moved loaded 0x3000 word_at_base pointer pointer_kind (omega (arith, loaded_base))
      (omega (arith, loaded_base)) (omega arith)
