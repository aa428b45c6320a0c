-- ===== src/Tests/Assembled.antt =====
-- The image that the builder builds from a load, a note, a template, a dependency and a relocation.
use elfex.Builder.{
  ElfBuilder, LoadSpec, TlsSpec, load_segment, tls_segments, builder_image, builder_parts,
  builder_ident, try_build,
}
use elfex.Builder.Built.{Built, try_build-builds}
use elfex.Builder.Pieces.{
  null_section, add_notes, note_segment, note_section, add_dynamic, dynamic_segment, dynstr_section,
  dynamic_section, add_rela, rela_section, name_strings, name_offsets, dynamic_bytes, push_needed,
  entry_bytes,
}
use elfex.Builder.Serialize.{
  NoteSpec, serialize_note, pad_loop, u32_or_zero, serialize_rela, rela_loop, rela_parts,
}
use elfex.Builder.Suited.{Suits}
use elfex.Common.{◌≤◌, ◌<◌, ◌≡◌, refl, arith, [], ◌∷◌, some, length}
use elfex.Common.Outcome.{ok}
use elfex.Common.Slices.{bytes_eq}
use elfex.Common.Words.{low32, to_le_bytes}
use elfex.Dynamic
use elfex.Elf.{ElfImage}
use elfex.Elf.Build.{writable}
use elfex.Elf.Build.Enough.{total_cost}
use elfex.Elf.Build.Names
use elfex.Elf.Build.Names.{
  ensure_shstrtab, assign_name_offsets, assign_names, assign_name, name_blob, position, is_shstrtab,
  u16_or_zero,
}
use elfex.Elf.Build.Output.{max_image}
use elfex.Elf.Build.Stored.{named}
use elfex.Header
use elfex.Header.ElfType
use elfex.Header.ElfType.{exec}
use elfex.Ident.ElfClass.{elf64}
use elfex.Ident.Endian
use elfex.Ident.Endian.{little}
use elfex.Program
use elfex.Reloc
use elfex.Section
use elfex.StringTable.{is_utf8}
use elfex.Tests.Builder.{pointer, pointer-Fits, libc, libc-IsName}

abbrev code : LoadSpec
code = record { vaddr = 0x401000; flags = 5; align = 0x1000; bytes = 0x90 ∷ 0xc3 ∷ [] }

abbrev stamp : NoteSpec
stamp = record { name = b'G' ∷ b'N' ∷ b'U' ∷ []; note_type = 3; descriptor = 7 ∷ 8 ∷ [] }

abbrev thread : TlsSpec
thread = record { vaddr = 0x402000; bytes = 1 ∷ []; memsz = 8; align = 8 }

-- The builder with these.
abbrev assembly : ElfBuilder
assembly = record {
  class = elf64;
  encoding = little;
  elf_type = exec;
  machine = 62;
  entry = 0x401000;
  os_abi = 0;
  flags = 0;
  loads = code ∷ [];
  notes = stamp ∷ [];
  relocations = pointer ∷ [];
  tls = some thread;
  needed = libc ∷ [];
}

assembly-Suits : Suits assembly
unfolding is_utf8 ElfType.to_u16 serialize_note pad_loop u32_or_zero Endian.word_bytes to_le_bytes
    name_strings name_offsets dynamic_bytes push_needed entry_bytes serialize_rela rela_loop
    rela_parts
assembly-Suits = record {
  type_lt = omega arith;
  machine_lt = omega arith;
  entry_lt = omega arith;
  flags_lt = omega arith;
  loads = (omega arith, tt);
  tls = omega arith;
  notes = (
    record {
      writable = record {
        name_utf8 = refl;
        name_fits = omega arith;
        descriptor_fits = omega arith;
        type_lt = omega arith;
      };
      name = record {
        no_nul = (
          λ h. absurd (omega arith),
          (λ h. absurd (omega arith), (λ h. absurd (omega arith), tt)),
        );
        text = refl;
      };
      size_lt = omega arith;
    },
    tt,
  );
  needed = (libc-IsName, tt);
  strings_lt = omega arith;
  dynamic_lt = omega arith;
  relocations = (pointer-Fits, tt);
  rela_lt = omega arith;
}

assembly-small :
    (total_cost (builder_image assembly) ≤ max_image)
    × (length (builder_image assembly).segments < 0x10000)
    × (length (named (builder_image assembly).sections) < 0x10000)
unfolding builder_image builder_parts builder_ident load_segment tls_segments null_section add_notes
    note_segment note_section add_dynamic dynamic_segment dynstr_section dynamic_section add_rela
    rela_section serialize_note pad_loop u32_or_zero Endian.word_bytes to_le_bytes name_strings
    name_offsets dynamic_bytes push_needed entry_bytes serialize_rela rela_loop rela_parts
    Header.size Program.size Section.header_size writable ensure_shstrtab assign_name_offsets
    assign_names assign_name name_blob Names.name_offsets position is_shstrtab u16_or_zero bytes_eq
    low32 Dynamic.entry_size Reloc.entry_size
assembly-small = (omega arith, omega arith, omega arith)

abbrev built : (image : ElfImage) × (try_build assembly ≡ ok image) × Built assembly image
built = try_build-builds assembly assembly-Suits assembly-small.0 assembly-small.1 assembly-small.2
