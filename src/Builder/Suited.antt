-- ===== src/Builder/Suited.antt =====
-- What is asked of a builder, so that the image that it makes is regular.
use elfex.Builder.{ElfBuilder, LoadSpec, TlsSpec, load_segment, tls_segments}
use elfex.Builder.DynamicRows.{word_limit}
use elfex.Builder.Pieces.{note_segment, name_strings, name_offsets, dynamic_bytes, dynamic_segment}
use elfex.Builder.Rela.{FitsRela}
use elfex.Builder.Serialize.{NoteSpec, serialize_note, serialize_rela}
use elfex.Common.{
  ◌<◌, ◌≡◌, ◌≢◌, refl, arith, Bytes, List, [], ◌∷◌, Option, some, none, false, All, map, length,
}
use elfex.Common.Outcome.{u64_mod}
use elfex.Elf.Regular.{IsRegular}
use elfex.Header.ElfType.{to_u16}
use elfex.Ident.ElfClass.{ElfClass, elf32, elf64}
use elfex.Ident.Endian.{Endian}
use elfex.Notes.Padding.{IsWritable}
use elfex.Program.{ProgramHeader, Segment}
use elfex.Program.RoundTrip as ProgramTrip
use elfex.Program.SegmentType
use elfex.Section.{Section, SectionHeader, is_nobits}
use elfex.Section.RoundTrip as SectionTrip
use elfex.StringTable.Names.{IsName}

-- A load and a thread-local template with addresses and sizes that a word of the class holds.
pub record FitsLoad (class : ElfClass) (l : LoadSpec) : Type 0 where
  pub vaddr_lt : l.vaddr < word_limit class
  pub flags_lt : l.flags < 0x100000000
  pub align_lt : l.align < word_limit class
  pub size_lt : length l.bytes < word_limit class

pub record FitsTls (class : ElfClass) (t : TlsSpec) : Type 0 where
  pub vaddr_lt : t.vaddr < word_limit class
  pub memsz_lt : t.memsz < word_limit class
  pub align_lt : t.align < word_limit class
  pub size_lt : length t.bytes < word_limit class

abbrev pub FitsTemplate : ElfClass → Option TlsSpec → Type 0
FitsTemplate class none = Unit {0}
FitsTemplate class (some t) = FitsTls class t

pub record FitsNote (e : Endian) (s : NoteSpec) : Type 0 where
  pub writable : IsWritable s
  pub name : IsName s.name
  pub size_lt : length (serialize_note s e) < 0x100000000

-- The numbers of a builder are in the range of their types and of its class, its names are UTF-8
-- without a zero byte, and its notes, strings and tables are shorter than 4 GiB.
pub record Suits (b : ElfBuilder) : Type 0 where
  pub type_lt : to_u16 b.elf_type < 0x10000
  pub machine_lt : b.machine < 0x10000
  pub entry_lt : b.entry < u64_mod
  pub flags_lt : b.flags < 0x100000000
  pub loads : All (FitsLoad b.class) b.loads
  pub tls : FitsTemplate b.class b.tls
  pub notes : All (FitsNote b.encoding) b.notes
  pub needed : All IsName b.needed
  pub strings_lt : length (name_strings (0 ∷ []) b.needed) < 0x100000000
  pub dynamic_lt :
      length (
        dynamic_bytes
          (name_offsets (0 ∷ []) b.needed)
          (length (name_strings (0 ∷ []) b.needed))
          b.encoding
          b.class)
      < 0x100000000
  pub relocations : All (FitsRela b.class) b.relocations
  pub rela_lt : length (serialize_rela b.relocations b.encoding b.class) < 0x100000000

-- What is shown of each segment and of each section.
pub record IsSoundSegment (class : ElfClass) (s : Segment) : Type 0 where
  pub typed : ProgramTrip.IsTyped s.header
  pub fits : ProgramTrip.FitsClass class s.header
  pub typed_nonnull : s.header.type ≢ SegmentType.null
  pub full : length s.bytes ≡ s.header.filesz

pub record IsSoundSection (class : ElfClass) (s : Section) : Type 0 where
  pub regular : IsRegular class s
  pub bits : is_nobits s.header ≡ false

small-segment :
    (class : ElfClass) (h : ProgramHeader) → ProgramTrip.FitsElf32 h → ProgramTrip.FitsClass class h
small-segment elf32 h f = f
small-segment elf64 h f = tt

pub small-section :
    (class : ElfClass) (h : SectionHeader) → SectionTrip.FitsElf32 h → SectionTrip.FitsClass class h
small-section elf32 h f = f
small-section elf64 h f = tt

load-IsSound :
    (class : ElfClass) (l : LoadSpec) → FitsLoad class l → IsSoundSegment class (load_segment l)
unfolding load_segment
load-IsSound elf32 l f = record {
  typed = omega (arith, f.vaddr_lt, f.flags_lt, f.align_lt, f.size_lt);
  fits = omega (arith, f.vaddr_lt, f.flags_lt, f.align_lt, f.size_lt);
  typed_nonnull = λ z. absurd (omega arith);
  full = refl;
}
load-IsSound elf64 l f = record {
  typed = omega (arith, f.vaddr_lt, f.flags_lt, f.align_lt, f.size_lt);
  fits = tt;
  typed_nonnull = λ z. absurd (omega arith);
  full = refl;
}

pub loads-IsSound :
    (class : ElfClass) (loads : List LoadSpec)
    → All (FitsLoad class) loads
    → All (IsSoundSegment class) (map load_segment loads)
loads-IsSound class [] f = tt
loads-IsSound class (l ∷ loads) f = (load-IsSound class l f.0, loads-IsSound class loads f.1)

pub tls-IsSound :
    (class : ElfClass) (t : Option TlsSpec)
    → FitsTemplate class t
    → All (IsSoundSegment class) (tls_segments t)
unfolding tls_segments
tls-IsSound class none f = tt
tls-IsSound elf32 (some t) f = (
  record {
    typed = omega (arith, f.vaddr_lt, f.memsz_lt, f.align_lt, f.size_lt);
    fits = omega (arith, f.vaddr_lt, f.memsz_lt, f.align_lt, f.size_lt);
    typed_nonnull = λ z. absurd (omega arith);
    full = refl;
  },
  tt,
)
tls-IsSound elf64 (some t) f = (
  record {
    typed = omega (arith, f.vaddr_lt, f.memsz_lt, f.align_lt, f.size_lt);
    fits = tt;
    typed_nonnull = λ z. absurd (omega arith);
    full = refl;
  },
  tt,
)

pub note-IsSound :
    (class : ElfClass) (bytes : Bytes)
    → length bytes < 0x100000000
    → IsSoundSegment class (note_segment bytes)
unfolding note_segment
note-IsSound class bytes small = record {
  typed = omega arith;
  fits = small-segment class _ (omega arith);
  typed_nonnull = λ z. absurd (omega arith);
  full = refl;
}

pub dynamic-IsSound :
    (class : ElfClass) (bytes : Bytes)
    → length bytes < 0x100000000
    → IsSoundSegment class (dynamic_segment bytes)
unfolding dynamic_segment
dynamic-IsSound class bytes small = record {
  typed = omega arith;
  fits = small-segment class _ (omega arith);
  typed_nonnull = λ z. absurd (omega arith);
  full = refl;
}
