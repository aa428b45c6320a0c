-- ===== src/Elf/Build/Mapped.antt =====
-- src/elf/build.rs: images written as a loader maps them, at their base or moved.
use elfex.Common.{
  ℕ, ◌+◌, ◌-◌, ◌%◌, Bytes, List, [], ◌∷◌, none, some, Bool, true, false, leb, ltb, ◌==◌,
  if◌then◌else◌, min, map, length, take, drop, replicate,
}
use elfex.Common.Outcome.{
  Outcome, ok, panic, ◌>>=◌, ◌>>◌, reject_if, add_u64, checked_sub, u64_mod, generic,
}
use elfex.Common.Slices.{splice}
use elfex.Common.Words.{low32}
use elfex.Elf.{ElfImage}
use elfex.Elf.Build.Names.{u16_or_zero}
use elfex.Elf.Build.Output.{max_image}
use elfex.Elf.Inspect.{image_base, image_span, relocations}
use elfex.Header
use elfex.Header.{ElfHeader}
use elfex.Headers.Table.{write_table}
use elfex.Ident.Endian.{Endian, u64, u32_bytes, u64_bytes}
use elfex.Program
use elfex.Program.{Segment}
use elfex.Program.SegmentType
use elfex.Reloc.{RelocationEntry, RelocationSection, RelocKind, relocation_kind, relocation_width}

-- `image[start..start + bytes.len()].copy_from_slice(bytes)`, which panics out of bounds
unfoldable pub copy_in : Bytes → ℕ → Bytes → Outcome Bytes
copy_in image start bytes =
    if leb (start + length bytes) (length image) then ok (splice image start bytes) else panic

-- A round of the loop that places the loadable segments.
unfoldable pub map_segment : ℕ → Bytes → Segment → Outcome Bytes
map_segment base image s =
    let found : Outcome Bytes = elim (checked_sub s.header.vaddr base) [
      | none ↦ ok image
      | some start ↦
          copy_in image start (take (min (length s.bytes) (length image - start)) s.bytes)
    ] in
    if s.header.type == SegmentType.load then found else ok image

unfoldable pub map_segments : ℕ → Bytes → List Segment → Outcome Bytes
map_segments base image [] = ok image
map_segments base image (s ∷ ss) = do image' ← map_segment base image s; map_segments base image' ss

-- The headers at the start of the mapped image, as far as they fit.
unfoldable pub mapped_header : ElfImage → ElfHeader
mapped_header image = record image.header {
  ehsize = Header.size image.ident.class;
  phentsize = Program.size image.ident.class;
  phnum = u16_or_zero (length image.segments);
  phoff = Header.size image.ident.class;
}

unfoldable pub header_bytes : ElfImage → Bytes
header_bytes image =
    write_table (map (λ s. s.header) image.segments) (Header.write (mapped_header image) [])
      image.ident.encoding image.ident.class

unfoldable pub write_headers : ElfImage → Bytes → Bytes
write_headers image mapped =
    let bytes = header_bytes image in
    splice mapped 0 (take (min (length bytes) (length mapped)) bytes)

unfoldable pub is_relative : RelocKind → Bool
is_relative RelocKind.relative = true
is_relative _ = false

-- `base.wrapping_sub(image_base)`
unfoldable pub base_change : ℕ → ℕ → ℕ
base_change base preferred = (base + u64_mod - preferred) % u64_mod

-- The stored word of a width, moved by the change of base.
unfoldable pub moved_word : Endian → ℕ → ℕ → Bytes → Bytes
moved_word endian width delta stored =
    let relocated = (u64 endian stored + delta) % u64_mod in
    if width == 4 then u32_bytes endian (low32 relocated) else u64_bytes endian relocated

-- The patch of a word at a place in the mapped image, if it lies inside.
unfoldable pub relocate_at : ElfImage → ℕ → Bytes → ℕ → ℕ → Outcome Bytes
relocate_at image delta mapped width start =
    let stored = take width (drop start mapped) in
    let moved = splice mapped start (moved_word image.ident.encoding width delta stored) in
    let patched : Outcome Bytes =
      if width == 4 then ok moved else if width == 8 then ok moved else ok mapped in
    add_u64 start width >>= λ end. if ltb (length mapped) end then ok mapped else patched

-- A round of the loop over the entries of a table.
unfoldable pub relocate : ElfImage → ℕ → Bytes → RelocationEntry → Outcome Bytes
relocate image delta mapped entry =
    let found : Outcome Bytes = elim (relocation_width image.header.machine entry.r_type) [
      | none ↦ ok mapped
      | some width ↦ elim (checked_sub entry.offset (image_base image)) [
        | none ↦ ok mapped
        | some start ↦ relocate_at image delta mapped width start
      ]
    ] in
    if is_relative (relocation_kind image.header.machine entry.r_type) then found else ok mapped

unfoldable pub relocate_entries : ElfImage → ℕ → Bytes → List RelocationEntry → Outcome Bytes
relocate_entries image delta mapped [] = ok mapped
relocate_entries image delta mapped (entry ∷ entries) = do
  mapped' ← relocate image delta mapped entry
  relocate_entries image delta mapped' entries

unfoldable pub relocate_tables : ElfImage → ℕ → Bytes → List RelocationSection → Outcome Bytes
relocate_tables image delta mapped [] = ok mapped
relocate_tables image delta mapped (table ∷ tables) = do
  mapped' ← relocate_entries image delta mapped table.entries
  relocate_tables image delta mapped' tables

unfoldable pub apply_relative_relocations : ElfImage → Bytes → ℕ → Outcome Bytes
apply_relative_relocations image mapped base = do
  tables ← relocations image
  relocate_tables image (base_change base (image_base image)) mapped tables

unfoldable pub to_mapped_image_at : ElfImage → ℕ → Outcome Bytes
to_mapped_image_at image base = do
  reject_if (ltb max_image (image_span image))
      (generic "mapped image exceeds the 256 MiB layout limit")
  mapped ← map_segments (image_base image) (replicate (image_span image) 0) image.segments
  let headed = write_headers image mapped
  if base == image_base image then ok headed else apply_relative_relocations image headed base

unfoldable pub to_mapped_image : ElfImage → Outcome Bytes
to_mapped_image image = to_mapped_image_at image (image_base image)
