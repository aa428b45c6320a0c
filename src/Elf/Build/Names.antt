-- ===== src/Elf/Build/Names.antt =====
-- src/elf/build.rs: the section-name string table.
use elfex.Common.{
  ℕ, suc, Bytes, List, [], ◌∷◌, ◌++◌, Option, none, some, Bool, ◌&&◌, ltb, ◌==◌, if◌then◌else◌,
  length,
}
use elfex.Common.Slices.{bytes_eq}
use elfex.Common.Words.{low32}
use elfex.Section.{Section}
use elfex.Section.SectionType

abbrev pub shstrtab_name : Bytes
shstrtab_name = b'.' ∷ b's' ∷ b'h' ∷ b's' ∷ b't' ∷ b'r' ∷ b't' ∷ b'a' ∷ b'b' ∷ []

-- The test for the section-name string table.
unfoldable pub is_shstrtab : Section → Bool
is_shstrtab s = bytes_eq s.name shstrtab_name && s.header.type == SectionType.strtab

-- `sections.iter().position(..)`
unfoldable pub position : List Section → Option ℕ
position [] = none
position (s ∷ ss) =
    let later : Option ℕ = elim (position ss) [ none ↦ none | some i ↦ some (suc i) ] in
    if is_shstrtab s then some 0 else later

-- `u16::try_from(n).unwrap_or(0)`
unfoldable pub u16_or_zero : ℕ → ℕ
u16_or_zero n = if ltb n 0x10000 then n else 0

abbrev pub empty_shstrtab : Section
empty_shstrtab = record {
  header = record {
    name_index = 0;
    type = SectionType.strtab;
    flags = 0;
    addr = 0;
    offset = 0;
    size = 0;
    link = 0;
    info = 0;
    addralign = 1;
    entsize = 0;
  };
  name = shstrtab_name;
  bytes = [];
}

-- The sections with such a table among them, and its index.
unfoldable pub ensure_shstrtab : List Section → List Section × ℕ
ensure_shstrtab sections = elim (position sections) [
  | some index ↦ (sections, u16_or_zero index)
  | none ↦ (sections ++ (empty_shstrtab ∷ []), u16_or_zero (length sections))
]

-- The blob, and the offset of each name in it, behind the bytes collected so far.
unfoldable pub name_blob : Bytes → List Section → Bytes
name_blob blob [] = blob
name_blob blob (s ∷ ss) = name_blob (blob ++ (s.name ++ (0 ∷ []))) ss

unfoldable pub name_offsets : Bytes → List Section → List ℕ
name_offsets blob [] = []
name_offsets blob (s ∷ ss) = low32 (length blob) ∷ name_offsets (blob ++ (s.name ++ (0 ∷ []))) ss

unfoldable pub assign_name : Bytes → Section → ℕ → Section
assign_name blob s offset =
    if s.header.type == SectionType.strtab && bytes_eq s.name shstrtab_name
    then record s {
      header = record s.header { name_index = offset; size = length blob };
      bytes = blob;
    }
    else record s { header = record s.header { name_index = offset } }

-- `sections.iter_mut().zip(offsets)`
unfoldable pub assign_names : Bytes → List Section → List ℕ → List Section
assign_names blob [] offsets = []
assign_names blob (s ∷ ss) [] = s ∷ ss
assign_names blob (s ∷ ss) (offset ∷ offsets) =
    assign_name blob s offset ∷ assign_names blob ss offsets

unfoldable pub assign_name_offsets : List Section → List Section
assign_name_offsets sections =
    assign_names (name_blob (0 ∷ []) sections) sections (name_offsets (0 ∷ []) sections)
