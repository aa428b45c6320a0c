-- ===== src/Tests/Data.antt =====
-- A small object of each class, its headers and its segments.
use elfex.Common.{arith, List, [], ◌∷◌}
use elfex.Elf.{ElfImage}
use elfex.Header.{ElfHeader}
use elfex.Header.ElfType
use elfex.Header.Machine
use elfex.Header.RoundTrip as HeaderTrip
use elfex.Ident.{ElfIdent}
use elfex.Ident.ElfClass.{ElfClass, elf64}
use elfex.Ident.Endian.{Endian, little}
use elfex.Program.{ProgramHeader, Segment}
use elfex.Program.RoundTrip as ProgramTrip
use elfex.Program.SegmentType
use elfex.Section.{SectionHeader}
use elfex.Section.RoundTrip as SectionTrip
use elfex.Section.SectionType

abbrev pub identity : ElfClass → Endian → ElfIdent
identity class encoding = record {
  class = class;
  encoding = encoding;
  version = 1;
  os_abi = 0;
  abi_version = 0;
}

-- A position-independent executable with two program headers behind its file header.
abbrev pub file_header : ElfHeader
file_header = record {
  ident = identity elf64 little;
  type = ElfType.dyn;
  machine = Machine.x86_64;
  version = 1;
  entry = 0x1040;
  phoff = 64;
  shoff = 0;
  flags = 0;
  ehsize = 64;
  phentsize = 56;
  phnum = 2;
  shentsize = 64;
  shnum = 0;
  shstrndx = 0;
}

abbrev pub text_header : ProgramHeader
text_header = record {
  type = SegmentType.load;
  flags = 5;
  offset = 0x1000;
  vaddr = 0x1000;
  paddr = 0x1000;
  filesz = 4;
  memsz = 8;
  align = 0x1000;
}

-- An interpreter path inside the text segment.
abbrev pub interp_header : ProgramHeader
interp_header = record {
  type = SegmentType.interp;
  flags = 4;
  offset = 0x1002;
  vaddr = 0x1002;
  paddr = 0x1002;
  filesz = 2;
  memsz = 2;
  align = 1;
}

abbrev pub strings_header : SectionHeader
strings_header = record {
  name_index = 1;
  type = SectionType.strtab;
  flags = 0;
  addr = 0;
  offset = 0x200;
  size = 11;
  link = 0;
  info = 0;
  addralign = 1;
  entsize = 0;
}

abbrev pub text_segment : Segment
text_segment = record { header = text_header; bytes = 0x90 ∷ 0x90 ∷ 0x90 ∷ 0xc3 ∷ [] }

abbrev pub interp_segment : Segment
interp_segment = record { header = interp_header; bytes = 0x90 ∷ 0xc3 ∷ [] }

abbrev pub image_of : List Segment → ElfImage
image_of segments = record {
  ident = identity elf64 little;
  header = file_header;
  segments = segments;
  sections = [];
  runtime_base = 0;
}

abbrev pub file_header-IsTyped : HeaderTrip.IsTyped file_header
unfolding ElfType.to_u16
file_header-IsTyped = omega arith

abbrev pub text_header-IsTyped : ProgramTrip.IsTyped text_header
text_header-IsTyped = omega arith

abbrev pub interp_header-IsTyped : ProgramTrip.IsTyped interp_header
interp_header-IsTyped = omega arith

abbrev pub strings_header-IsTyped : SectionTrip.IsTyped strings_header
strings_header-IsTyped = omega arith
