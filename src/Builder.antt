-- ===== src/Builder.antt =====
-- src/builder.rs: the builder of images, field by field, and the image it makes.
pub mod Serialize
pub mod Pieces
pub mod Rela
pub mod DynamicRows
pub mod DynamicTable
pub mod Contents
pub mod Inspected
pub mod InspectedTables
pub mod InspectedNeeded
pub mod InspectedTls
pub mod Suited
pub mod SoundSections
pub mod Sound
pub mod Built
pub mod Head
use elfex.Builder.Pieces.{Parts, null_section, add_notes, add_dynamic, add_rela}
use elfex.Builder.Serialize.{NoteSpec}
use elfex.Common.{ℕ, Bytes, List, [], ◌∷◌, ◌++◌, Option, none, some, length, map}
use elfex.Common.Outcome.{Outcome, ok, ◌>>=◌}
use elfex.Elf.{ElfImage}
use elfex.Elf.Build
use elfex.Elf.Parse
use elfex.Header.{ElfHeader}
use elfex.Header.ElfType.{ElfType, exec}
use elfex.Header.Machine.{x86_64}
use elfex.Ident.{ElfIdent}
use elfex.Ident.ElfClass.{ElfClass, elf64}
use elfex.Ident.Endian.{Endian, little}
use elfex.Program.{ProgramHeader, Segment, pf_r}
use elfex.Program.SegmentType
use elfex.Reloc.{RelocationEntry}
use elfex.Section.{Section}

pub record LoadSpec : Type 0 where
  pub vaddr : ℕ
  pub flags : ℕ
  pub align : ℕ
  pub bytes : Bytes

pub record TlsSpec : Type 0 where
  pub vaddr : ℕ
  pub bytes : Bytes
  pub memsz : ℕ
  pub align : ℕ

pub record ElfBuilder : Type 0 where
  pub class : ElfClass
  pub encoding : Endian
  pub elf_type : ElfType
  pub machine : ℕ
  pub entry : ℕ
  pub os_abi : ℕ
  pub flags : ℕ
  pub loads : List LoadSpec
  pub notes : List NoteSpec
  pub relocations : List RelocationEntry
  pub tls : Option TlsSpec
  pub needed : List Bytes

unfoldable pub new : ElfBuilder
new = record {
  class = elf64;
  encoding = little;
  elf_type = exec;
  machine = x86_64;
  entry = 0;
  os_abi = 0;
  flags = 0;
  loads = [];
  notes = [];
  relocations = [];
  tls = none;
  needed = [];
}

unfoldable pub set_class : ElfBuilder → ElfClass → ElfBuilder
set_class b class = record b { class = class }

unfoldable pub set_endian : ElfBuilder → Endian → ElfBuilder
set_endian b encoding = record b { encoding = encoding }

unfoldable pub set_elf_type : ElfBuilder → ElfType → ElfBuilder
set_elf_type b elf_type = record b { elf_type = elf_type }

unfoldable pub set_machine : ElfBuilder → ℕ → ElfBuilder
set_machine b machine = record b { machine = machine }

unfoldable pub set_entry : ElfBuilder → ℕ → ElfBuilder
set_entry b entry = record b { entry = entry }

unfoldable pub set_os_abi : ElfBuilder → ℕ → ElfBuilder
set_os_abi b os_abi = record b { os_abi = os_abi }

unfoldable pub set_flags : ElfBuilder → ℕ → ElfBuilder
set_flags b flags = record b { flags = flags }

unfoldable pub add_load_aligned : ElfBuilder → ℕ → ℕ → ℕ → Bytes → ElfBuilder
add_load_aligned b vaddr flags align bytes =
    let load : LoadSpec = record { vaddr = vaddr; flags = flags; align = align; bytes = bytes } in
    record b { loads = b.loads ++ (load ∷ []) }

unfoldable pub add_load : ElfBuilder → ℕ → ℕ → Bytes → ElfBuilder
add_load b vaddr flags bytes =
    let load : LoadSpec = record { vaddr = vaddr; flags = flags; align = 0x1000; bytes = bytes } in
    record b { loads = b.loads ++ (load ∷ []) }

unfoldable pub add_note : ElfBuilder → Bytes → ℕ → Bytes → ElfBuilder
add_note b name note_type descriptor =
    let note : NoteSpec = record { name = name; note_type = note_type; descriptor = descriptor } in
    record b { notes = b.notes ++ (note ∷ []) }

unfoldable pub add_relocations : ElfBuilder → List RelocationEntry → ElfBuilder
add_relocations b entries = record b { relocations = entries }

unfoldable pub add_tls : ElfBuilder → ℕ → Bytes → ℕ → ℕ → ElfBuilder
add_tls b vaddr bytes memsz align = record b {
  tls = some (record { vaddr = vaddr; bytes = bytes; memsz = memsz; align = align });
}

unfoldable pub add_dynamic_needed : ElfBuilder → Bytes → ElfBuilder
add_dynamic_needed b name = record b { needed = b.needed ++ (name ∷ []) }

unfoldable pub load_segment : LoadSpec → Segment
load_segment load = record {
  header = record {
    type = SegmentType.load;
    flags = load.flags;
    offset = 0;
    vaddr = load.vaddr;
    paddr = load.vaddr;
    filesz = length load.bytes;
    memsz = length load.bytes;
    align = load.align;
  };
  bytes = load.bytes;
}

unfoldable pub tls_segments : Option TlsSpec → List Segment
tls_segments none = []
tls_segments (some tls) =
    record {
      header = record {
        type = SegmentType.tls;
        flags = pf_r;
        offset = 0;
        vaddr = tls.vaddr;
        paddr = tls.vaddr;
        filesz = length tls.bytes;
        memsz = tls.memsz;
        align = tls.align;
      };
      bytes = tls.bytes;
    }
    ∷ []

unfoldable pub builder_ident : ElfBuilder → ElfIdent
builder_ident b = record {
  class = b.class;
  encoding = b.encoding;
  version = 1;
  os_abi = b.os_abi;
  abi_version = 0;
}

unfoldable pub builder_header : ElfBuilder → ElfHeader
builder_header b = record {
  ident = builder_ident b;
  type = b.elf_type;
  machine = b.machine;
  version = 1;
  entry = b.entry;
  phoff = 0;
  shoff = 0;
  flags = b.flags;
  ehsize = 0;
  phentsize = 0;
  phnum = 0;
  shentsize = 0;
  shnum = 0;
  shstrndx = 0;
}

-- The segments and sections, in the order in which the builder pushes them.
unfoldable pub builder_parts : ElfBuilder → Parts
builder_parts b =
    let start : Parts = record {
      segments = map load_segment b.loads ++ tls_segments b.tls;
      sections = null_section ∷ [];
    } in
    add_rela b.relocations b.encoding b.class
      (add_dynamic b.needed b.encoding b.class (add_notes b.notes b.encoding start))

-- The image before it is written and parsed.
unfoldable pub builder_image : ElfBuilder → ElfImage
builder_image b = record {
  ident = builder_ident b;
  header = builder_header b;
  segments = (builder_parts b).segments;
  sections = (builder_parts b).sections;
  runtime_base = 0;
}

unfoldable pub try_build : ElfBuilder → Outcome ElfImage
try_build b = do bytes ← Build.try_build (builder_image b); Parse.parse bytes
