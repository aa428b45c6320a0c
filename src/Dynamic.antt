-- ===== src/Dynamic.antt =====
-- src/dynamic.rs: the dynamic table.
pub mod DynTag
use elfex.Common.{
  ℕ, ◌%◌, Bytes, List, [], ◌∷◌, Option, none, some, Bool, true, false, ◌==◌, not, if◌then◌else◌,
  length, find,
}
use elfex.Common.Outcome.{Outcome, ok, ◌>>=◌, ◌>>◌, reject_if, invalid_section}
use elfex.Common.Slices.{chunks_exact}
use elfex.Ident.ElfClass.{ElfClass, elf32, elf64}
use elfex.Ident.Endian.{Endian, u32, u64}
use elfex.ParseUtils.{array4, array8}
use elfex.StringTable

-- `tag` is the number that `DynTag` wraps. A `DynamicTable` is its list of entries.
pub record DynamicEntry : Type 0 where
  pub tag : ℕ
  pub value : ℕ

unfoldable pub entry_size : ElfClass → ℕ
entry_size elf64 = 16
entry_size elf32 = 8

unfoldable pub parse_entry : Bytes → Endian → ElfClass → Outcome DynamicEntry
parse_entry entry endian elf64 = do
  tag ← array8 entry 0
  value ← array8 entry 8
  ok (record { tag = u64 endian tag; value = u64 endian value })
parse_entry entry endian elf32 = do
  tag ← array4 entry 0
  value ← array4 entry 4
  ok (record { tag = u32 endian tag; value = u32 endian value })

-- The loop over the chunks, which breaks at `DT_NULL`.
unfoldable pub parse_entries : Endian → ElfClass → List Bytes → Outcome (List DynamicEntry)
parse_entries endian class [] = ok []
parse_entries endian class (chunk ∷ chunks) = do
  entry ← parse_entry chunk endian class
  let rest = (do entries ← parse_entries endian class chunks; ok (entry ∷ entries))
  if entry.tag == DynTag.null then ok [] else rest

unfoldable pub parse : Bytes → Endian → ElfClass → Outcome (List DynamicEntry)
parse bytes endian class = do
  reject_if (not (length bytes % entry_size class == 0))
      (invalid_section "dynamic table is not a whole number of entries")
  parse_entries endian class (chunks_exact (entry_size class) bytes)

-- `DynamicTable::find`
unfoldable pub find_tag : List DynamicEntry → ℕ → Option ℕ
find_tag entries tag = elim (find (λ entry. entry.tag == tag) entries) [
  | none ↦ none
  | some entry ↦ some entry.value
]

-- `string_at` of an offset is `StringTable.get`: `usize` holds every `u64`.
unfoldable pub needed : List DynamicEntry → Bytes → List Bytes
needed [] strtab = []
needed (entry ∷ entries) strtab =
    let rest = needed entries strtab in
    if entry.tag == DynTag.needed
    then elim (StringTable.get strtab entry.value) [ none ↦ rest | some name ↦ name ∷ rest ]
    else rest

unfoldable pub string_value : List DynamicEntry → ℕ → Bytes → Option Bytes
string_value entries tag strtab = elim (find_tag entries tag) [
  | none ↦ none
  | some offset ↦ StringTable.get strtab offset
]

unfoldable pub soname : List DynamicEntry → Bytes → Option Bytes
soname entries = string_value entries DynTag.soname

unfoldable pub runpath : List DynamicEntry → Bytes → Option Bytes
runpath entries = string_value entries DynTag.runpath

unfoldable pub rpath : List DynamicEntry → Bytes → Option Bytes
rpath entries = string_value entries DynTag.rpath
