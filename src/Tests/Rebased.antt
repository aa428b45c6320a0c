-- ===== src/Tests/Rebased.antt =====
-- An image with two relative relocations, moved to another base.
use elfex.Common.{
  ℕ, ◌≡◌, refl, arith, Bytes, List, [], ◌∷◌, All, length, inl, false, none, replicate, ◌++◌,
}
use elfex.Common.Outcome.{ok, saturating_add, add_u64}
use elfex.Common.Slices.{chunks_exact, chunks}
use elfex.Common.Words.{low32, from_le_bytes}
use elfex.Common.Pairwise.{Pairwise}
use elfex.Elf.{ElfImage, geometry, geometry_of, extent, extend, lower, align_up}
use elfex.Elf.Build.Mapped.{apply_relative_relocations, is_relative}
use elfex.Elf.Build.Moves.{relative_entries, Inside, Apart}
use elfex.Elf.Build.Rebased.{all_entries, AllRebased, apply-Rebased}
use elfex.Elf.Inspect.{image_base, load_records, relocations, relocations_of}
use elfex.Ident.Endian
use elfex.ParseUtils.{array}
use elfex.Reloc
use elfex.Reloc.{RelocationEntry, RelocationSection, relocation_kind}
use elfex.Section.{Section}
use elfex.Section.SectionType
use elfex.Tests.Data.{image_of, text_segment}

abbrev entry_at : ℕ → RelocationEntry
entry_at offset = record { offset = offset; symbol = 0; r_type = 8; addend = none }

-- The table without addends: two entries of sixteen bytes.
abbrev table_section : Section
table_section = record {
  header = record {
    name_index = 0;
    type = SectionType.rel;
    flags = 2;
    addr = 0;
    offset = 0;
    size = 32;
    link = 0;
    info = 0;
    addralign = 8;
    entsize = 16;
  };
  name = b'.' ∷ b'r' ∷ b'e' ∷ b'l' ∷ [];
  bytes =
      (0 ∷ 0x10 ∷ replicate 6 0)
      ++ (8 ∷ replicate 7 0)
      ++ (8 ∷ 0x10 ∷ replicate 6 0)
      ++ (8 ∷ replicate 7 0);
}

abbrev relocated : ElfImage
relocated = record (image_of (text_segment ∷ [])) { sections = table_section ∷ [] }

abbrev tables : List RelocationSection
tables = record { entries = entry_at 0x1000 ∷ entry_at 0x1008 ∷ []; is_rela = false } ∷ []

tables-read : relocations relocated ≡ ok tables
unfolding relocations relocations_of Reloc.parse Reloc.parse_entries Reloc.parse_entry
    Reloc.entry_words Reloc.entry_addend Reloc.entry_size Reloc.split_symbol Reloc.split_type low32
    chunks_exact chunks array add_u64 Endian.word from_le_bytes
tables-read = refl

relocated_base : image_base relocated ≡ 0x1000
unfolding image_base geometry geometry_of extent extend lower align_up load_records saturating_add
relocated_base = refl

-- The words 0x1040 and 0x1048, and a byte behind them.
abbrev words : Bytes
words = (0x40 ∷ 0x10 ∷ replicate 6 0) ++ (0x48 ∷ 0x10 ∷ replicate 6 0) ++ (0xcc ∷ [])

both_relative :
    relative_entries relocated (all_entries tables) ≡ entry_at 0x1000 ∷ entry_at 0x1008 ∷ []
unfolding relocation_kind Reloc.kind_x86_64 is_relative
both_relative = refl

words-Inside : All (Inside relocated (length words)) (entry_at 0x1000 ∷ entry_at 0x1008 ∷ [])
words-Inside = rw relocated_base (omega arith)

words-Apart : Pairwise (Apart relocated) (entry_at 0x1000 ∷ entry_at 0x1008 ∷ [])
words-Apart = rw relocated_base ((inl (omega arith), tt), (tt, tt))

apply-Rebased_example :
    (out : Bytes) × (apply_relative_relocations relocated words 0x400000 ≡ ok out)
    × AllRebased relocated 0x400000 (relative_entries relocated (all_entries tables)) words out
apply-Rebased_example =
    apply-Rebased relocated words 0x400000 tables tables-read (rw both_relative words-Inside)
      (rw both_relative words-Apart) (omega arith) (omega (arith, relocated_base))
