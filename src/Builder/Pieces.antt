-- ===== src/Builder/Pieces.antt =====
-- src/builder.rs: the segments and sections that the builder makes of notes, relocations and
-- dependencies.
use elfex.Builder.Serialize.{NoteSpec, serialize_note, serialize_rela}
use elfex.Common.{ℕ, ◌+◌, Bytes, List, [], ◌∷◌, ◌++◌, length, true}
use elfex.Common.Words.{low32}
use elfex.Dynamic
use elfex.Dynamic.DynTag
use elfex.Ident.ElfClass.{ElfClass, elf32, elf64}
use elfex.Ident.Endian.{Endian, u32_bytes, u64_bytes}
use elfex.Program.{Segment, pf_r, pf_w}
use elfex.Program.SegmentType
use elfex.Reloc
use elfex.Reloc.{RelocationEntry}
use elfex.Section.{Section, SectionHeader, shf_alloc, shf_write}
use elfex.Section.SectionType

-- The segments and sections made so far.
pub record Parts : Type 0 where
  pub segments : List Segment
  pub sections : List Section

abbrev pub note_prefix : Bytes
note_prefix = b'.' ∷ b'n' ∷ b'o' ∷ b't' ∷ b'e' ∷ b'.' ∷ []

abbrev pub rela_name : Bytes
rela_name = b'.' ∷ b'r' ∷ b'e' ∷ b'l' ∷ b'a' ∷ b'.' ∷ b'd' ∷ b'y' ∷ b'n' ∷ []

abbrev pub dynstr_name : Bytes
dynstr_name = b'.' ∷ b'd' ∷ b'y' ∷ b'n' ∷ b's' ∷ b't' ∷ b'r' ∷ []

abbrev pub dynamic_name : Bytes
dynamic_name = b'.' ∷ b'd' ∷ b'y' ∷ b'n' ∷ b'a' ∷ b'm' ∷ b'i' ∷ b'c' ∷ []

-- The fields that the builder's section headers share.
abbrev pub plain_section : ℕ → ℕ → SectionHeader
plain_section type size = record {
  name_index = 0;
  type = type;
  flags = 0;
  addr = 0;
  offset = 0;
  size = size;
  link = 0;
  info = 0;
  addralign = 0;
  entsize = 0;
}

unfoldable pub null_section : Section
null_section = record { header = plain_section SectionType.null 0; name = []; bytes = [] }

unfoldable pub note_segment : Bytes → Segment
note_segment bytes = record {
  header = record {
    type = SegmentType.note;
    flags = pf_r;
    offset = 0;
    vaddr = 0;
    paddr = 0;
    filesz = length bytes;
    memsz = length bytes;
    align = 4;
  };
  bytes = bytes;
}

unfoldable pub note_section : Bytes → Bytes → Section
note_section name bytes = record {
  header = record (plain_section SectionType.note (length bytes)) { addralign = 4 };
  name = note_prefix ++ name;
  bytes = bytes;
}

-- The loop over the notes.
unfoldable pub add_notes : List NoteSpec → Endian → Parts → Parts
add_notes [] endian parts = parts
add_notes (spec ∷ specs) endian parts =
    let bytes = serialize_note spec endian in
    add_notes specs endian (record {
      segments = parts.segments ++ (note_segment bytes ∷ []);
      sections = parts.sections ++ (note_section spec.name bytes ∷ []);
    })

unfoldable pub rela_section : List RelocationEntry → Endian → ElfClass → Section
rela_section entries endian class =
    let bytes = serialize_rela entries endian class in
    record {
      header = record (plain_section SectionType.rela (length bytes)) {
        addralign = 8;
        entsize = Reloc.entry_size class true;
      };
      name = rela_name;
      bytes = bytes;
    }

unfoldable pub add_rela : List RelocationEntry → Endian → ElfClass → Parts → Parts
add_rela [] endian class parts = parts
add_rela (entry ∷ entries) endian class parts = record parts {
  sections = parts.sections ++ (rela_section (entry ∷ entries) endian class ∷ []);
}

-- The string table of the names, behind the bytes collected so far, and the offset of each name.
unfoldable pub name_strings : Bytes → List Bytes → Bytes
name_strings dynstr [] = dynstr
name_strings dynstr (name ∷ names) = name_strings (dynstr ++ (name ++ (0 ∷ []))) names

unfoldable pub name_offsets : Bytes → List Bytes → List ℕ
name_offsets dynstr [] = []
name_offsets dynstr (name ∷ names) =
    length dynstr ∷ name_offsets (dynstr ++ (name ++ (0 ∷ []))) names

-- The closure `push_entry`: the bytes of one entry.
unfoldable pub entry_bytes : Endian → ElfClass → ℕ → ℕ → Bytes
entry_bytes endian elf64 tag value = u64_bytes endian tag ++ u64_bytes endian value
entry_bytes endian elf32 tag value = u32_bytes endian (low32 tag) ++ u32_bytes endian (low32 value)

unfoldable pub push_needed : Endian → ElfClass → Bytes → List ℕ → Bytes
push_needed endian class out [] = out
push_needed endian class out (offset ∷ offsets) =
    push_needed endian class (out ++ entry_bytes endian class DynTag.needed offset) offsets

unfoldable pub dynamic_bytes : List ℕ → ℕ → Endian → ElfClass → Bytes
dynamic_bytes offsets dynstr_len endian class =
    push_needed endian class [] offsets
    ++ (entry_bytes endian class DynTag.strtab 0
        ++ (entry_bytes endian class DynTag.strsz dynstr_len
            ++ entry_bytes endian class DynTag.null 0))

unfoldable pub dynamic_segment : Bytes → Segment
dynamic_segment bytes = record {
  header = record {
    type = SegmentType.dynamic;
    flags = pf_r + pf_w;
    offset = 0;
    vaddr = 0;
    paddr = 0;
    filesz = length bytes;
    memsz = length bytes;
    align = 8;
  };
  bytes = bytes;
}

unfoldable pub dynstr_section : Bytes → Section
dynstr_section bytes = record {
  header = record (plain_section SectionType.strtab (length bytes)) {
    flags = shf_alloc;
    addralign = 1;
  };
  name = dynstr_name;
  bytes = bytes;
}

unfoldable pub dynamic_section : Bytes → ElfClass → Section
dynamic_section bytes class = record {
  header = record (plain_section SectionType.dynamic (length bytes)) {
    flags = shf_alloc + shf_write;
    addralign = 8;
    entsize = Dynamic.entry_size class;
  };
  name = dynamic_name;
  bytes = bytes;
}

unfoldable pub add_dynamic : List Bytes → Endian → ElfClass → Parts → Parts
add_dynamic [] endian class parts = parts
add_dynamic (name ∷ names) endian class parts =
    let dynstr = name_strings (0 ∷ []) (name ∷ names) in
    let bytes = dynamic_bytes (name_offsets (0 ∷ []) (name ∷ names)) (length dynstr) endian class in
    record {
      segments = parts.segments ++ (dynamic_segment bytes ∷ []);
      sections = parts.sections ++ (dynstr_section dynstr ∷ dynamic_section bytes class ∷ []);
    }
