-- ===== src/Tests/Image.antt =====
-- Geometry and edits of a small image.
use elfex.Common.{
  ◌+◌, ◌%◌, ◌≤◌, ◌<◌, ◌≡◌, refl, arith, [], ◌∷◌, take, drop, get_elem?, some, find, true, false,
}
use elfex.Common.Outcome.{checked_add, saturating_add}
use elfex.Common.Slices.{splice}
use elfex.Elf.{Load, geometry, geometry_of, extent, extend, lower, align_up, ElfImage}
use elfex.Elf.Align.{align_up_least}
use elfex.Elf.Edit.{is_target, patch, patch_segment, write_segments, write_section, write_at_ioff}
use elfex.Elf.Edit.Sections.{TakesPatch, write_at_ioff-sections}
use elfex.Elf.Edit.Hidden.{read_ioff-write_at_ioff_hidden}
use elfex.Elf.Edit.ReadBack.{read_ioff-write_at_ioff}
use elfex.Elf.Geometry.{Covers, geometry-Covers}
use elfex.Elf.Inspect.{image_base, load_records, covering, read_ioff}
use elfex.Program
use elfex.Program.{Segment}
use elfex.Section
use elfex.Section.{Section}
use elfex.Section.SectionType
use elfex.Tests.Data.{text_segment, strings_header, interp_segment, image_of}

abbrev text_load : Load
text_load = record { vaddr = 0x401040; memsz = 0x200; align = 0x1000 }

abbrev data_load : Load
data_load = record { vaddr = 0x404000; memsz = 0x10; align = 0x1000 }

geometry-Covers_example : Covers (geometry (text_load ∷ data_load ∷ [])) data_load
geometry-Covers_example = geometry-Covers (text_load ∷ []) [] data_load (omega arith, omega arith)

geometry-base : (geometry (text_load ∷ data_load ∷ [])).base ≡ 0x401000
unfolding geometry geometry_of extent extend lower align_up
geometry-base = refl

align_up_least_example :
    (align_up 0x1234 0x1000 % 0x1000 ≡ 0)
    × (0x1234 ≤ align_up 0x1234 0x1000)
    × (align_up 0x1234 0x1000 < 0x1234 + 0x1000)
align_up_least_example = align_up_least 0x1234 0x1000 (omega arith) (omega arith)

-- Two bytes written at 0x1001, into the only segment there.
abbrev plain : ElfImage
plain = image_of (text_segment ∷ [])

abbrev plain_patched : ElfImage
plain_patched = image_of (record text_segment { bytes = 0x90 ∷ 0xeb ∷ 0xfe ∷ 0xc3 ∷ [] } ∷ [])

write-plain : write_at_ioff plain 1 (0xeb ∷ 0xfe ∷ []) ≡ some plain_patched
unfolding write_at_ioff write_segments patch_segment patch is_target Program.contains_vaddr
    image_base geometry geometry_of extent extend lower align_up load_records checked_add
    saturating_add splice
write-plain = refl

base-plain : checked_add (image_base plain) 1 ≡ some 0x1001
unfolding image_base geometry geometry_of extent extend lower align_up load_records checked_add
base-plain = refl

covering-plain : covering plain.segments 0x1001 ≡ some text_segment
unfolding covering Program.contains_vaddr find saturating_add
covering-plain = refl

target-plain : is_target 0x1001 text_segment ≡ true
unfolding is_target Program.contains_vaddr saturating_add
target-plain = refl

read_ioff-write_at_ioff_example : read_ioff plain_patched 1 2 ≡ some (0xeb ∷ 0xfe ∷ [])
read_ioff-write_at_ioff_example =
    read_ioff-write_at_ioff plain plain_patched 1 0x1001 (0xeb ∷ 0xfe ∷ []) text_segment write-plain
      base-plain covering-plain target-plain

-- One byte written at 0x1002, where the interpreter's segment stands in front.
abbrev nested : ElfImage
nested = image_of (interp_segment ∷ text_segment ∷ [])

abbrev nested_patched : ElfImage
nested_patched =
    image_of (interp_segment ∷ record text_segment { bytes = 0x90 ∷ 0x90 ∷ 0xcc ∷ 0xc3 ∷ [] } ∷ [])

write-nested : write_at_ioff nested 2 (0xcc ∷ []) ≡ some nested_patched
unfolding write_at_ioff write_segments patch_segment patch is_target Program.contains_vaddr
    image_base geometry geometry_of extent extend lower align_up load_records checked_add
    saturating_add splice
write-nested = refl

base-nested : checked_add (image_base nested) 2 ≡ some 0x1002
unfolding image_base geometry geometry_of extent extend lower align_up load_records checked_add
base-nested = refl

covering-nested : covering nested.segments 0x1002 ≡ some interp_segment
unfolding covering Program.contains_vaddr find saturating_add
covering-nested = refl

target-nested : is_target 0x1002 interp_segment ≡ false
unfolding is_target
target-nested = refl

read_ioff-write_at_ioff_hidden_example : read_ioff nested_patched 2 1 ≡ read_ioff nested 2 1
read_ioff-write_at_ioff_hidden_example =
    read_ioff-write_at_ioff_hidden nested nested_patched 2 0x1002 (0xcc ∷ []) interp_segment 1
      write-nested base-nested covering-nested target-nested

-- The same write where an allocated section describes the same bytes.
abbrev text_section : Section
text_section = record {
  header = record strings_header {
    type = SectionType.progbits;
    flags = 6;
    addr = 0x1000;
    size = 4;
  };
  name = [];
  bytes = 0x90 ∷ 0x90 ∷ 0x90 ∷ 0xc3 ∷ [];
}

abbrev labelled : ElfImage
labelled = record plain { sections = text_section ∷ [] }

abbrev labelled_patched : ElfImage
labelled_patched = record plain_patched {
  sections = record text_section { bytes = 0x90 ∷ 0xeb ∷ 0xfe ∷ 0xc3 ∷ [] } ∷ [];
}

write-labelled : write_at_ioff labelled 1 (0xeb ∷ 0xfe ∷ []) ≡ some labelled_patched
unfolding write_at_ioff write_segments patch_segment patch is_target Program.contains_vaddr
    image_base geometry geometry_of extent extend lower align_up load_records checked_add
    saturating_add splice write_section Section.contains_vaddr Section.is_alloc Section.is_nobits
write-labelled = refl

text_section-TakesPatch : TakesPatch 0x1001 (0xeb ∷ 0xfe ∷ []) text_section
unfolding Section.contains_vaddr Section.is_alloc Section.is_nobits saturating_add
text_section-TakesPatch = (refl, refl, omega arith, omega arith)

write_at_ioff-sections_example :
    (s' : Section) × (get_elem? labelled_patched.sections 0 ≡ some s')
    × (take 2 (drop 1 s'.bytes) ≡ 0xeb ∷ 0xfe ∷ [])
unfolding image_base
write_at_ioff-sections_example =
    write_at_ioff-sections labelled labelled_patched 1 0x1001 (0xeb ∷ 0xfe ∷ []) 0 text_section
      write-labelled base-plain refl text_section-TakesPatch
