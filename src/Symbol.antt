-- ===== src/Symbol.antt =====
-- src/symbol.rs: symbol tables.
use elfex.Common.{ℕ, ◌/◌, ◌%◌, Bytes, List, [], ◌∷◌, none, some, ◌==◌, not, if◌then◌else◌, length}
use elfex.Common.Outcome.{Outcome, ok, ◌>>=◌, ◌>>◌, reject_if, invalid_section}
use elfex.Common.Slices.{index, chunks_exact}
use elfex.Ident.ElfClass.{ElfClass, elf32, elf64}
use elfex.Ident.Endian.{Endian, u16, u32, u64}
use elfex.ParseUtils.{array2, array4, array8}
use elfex.StringTable

pub data SymbolBind : Type 0 where
  local global weak : SymbolBind
  other : ℕ → SymbolBind

unfoldable pub bind_from_u8 : ℕ → SymbolBind
bind_from_u8 value =
    if value == 0
    then local
    else if value == 1
    then global
    else if value == 2
    then weak
    else SymbolBind.other value

unfoldable pub bind_to_u8 : SymbolBind → ℕ
bind_to_u8 local = 0
bind_to_u8 global = 1
bind_to_u8 weak = 2
bind_to_u8 (SymbolBind.other value) = value

pub data SymbolType : Type 0 where
  no_type object func section file tls gnu_ifunc : SymbolType
  other : ℕ → SymbolType

unfoldable pub type_from_u8 : ℕ → SymbolType
type_from_u8 value =
    if value == 0
    then no_type
    else if value == 1
    then object
    else if value == 2
    then func
    else if value == 3
    then section
    else if value == 4
    then file
    else if value == 6
    then tls
    else if value == 10
    then gnu_ifunc
    else SymbolType.other value

unfoldable pub type_to_u8 : SymbolType → ℕ
type_to_u8 no_type = 0
type_to_u8 object = 1
type_to_u8 func = 2
type_to_u8 section = 3
type_to_u8 file = 4
type_to_u8 tls = 6
type_to_u8 gnu_ifunc = 10
type_to_u8 (SymbolType.other value) = value

pub data SymbolVisibility : Type 0 where
  default internal hidden protected : SymbolVisibility

-- `value & 0x03` is `value % 4`.
unfoldable pub visibility_from_u8 : ℕ → SymbolVisibility
visibility_from_u8 value =
    if value % 4 == 0
    then default
    else if value % 4 == 1
    then internal
    else if value % 4 == 2
    then hidden
    else protected

unfoldable pub visibility_to_u8 : SymbolVisibility → ℕ
visibility_to_u8 default = 0
visibility_to_u8 internal = 1
visibility_to_u8 hidden = 2
visibility_to_u8 protected = 3

pub record Symbol : Type 0 where
  pub name : Bytes
  pub value : ℕ
  pub size : ℕ
  pub bind : SymbolBind
  pub sym_type : SymbolType
  pub visibility : SymbolVisibility
  pub shndx : ℕ

unfoldable pub entry_size : ElfClass → ℕ
entry_size elf64 = 24
entry_size elf32 = 16

-- `strtab.get(i).unwrap_or_default()`
unfoldable pub name_or_default : Bytes → ℕ → Bytes
name_or_default strtab i = elim (StringTable.get strtab i) [ none ↦ [] | some name ↦ name ]

-- `value`, `size`, `st_info`, `st_other` and `shndx` of an entry
unfoldable pub entry_fields : Bytes → Endian → ElfClass → Outcome (ℕ × ℕ × ℕ × ℕ × ℕ)
entry_fields entry endian elf64 = do
  value ← array8 entry 8
  size ← array8 entry 16
  info ← index entry 4
  other_byte ← index entry 5
  shndx ← array2 entry 6
  ok (u64 endian value, u64 endian size, info, other_byte, u16 endian shndx)
entry_fields entry endian elf32 = do
  value ← array4 entry 4
  size ← array4 entry 8
  info ← index entry 12
  other_byte ← index entry 13
  shndx ← array2 entry 14
  ok (u32 endian value, u32 endian size, info, other_byte, u16 endian shndx)

-- `info >> 4` is `info / 16` and `info & 0x0f` is `info % 16`.
unfoldable pub parse_entry : Bytes → Bytes → Endian → ElfClass → Outcome Symbol
parse_entry strtab entry endian class = do
  name_index ← array4 entry 0
  (value, size, info, other_byte, shndx) ← entry_fields entry endian class
  ok (record {
    name = name_or_default strtab (u32 endian name_index);
    value = value;
    size = size;
    bind = bind_from_u8 (info / 16);
    sym_type = type_from_u8 (info % 16);
    visibility = visibility_from_u8 (other_byte % 4);
    shndx = shndx;
  })

unfoldable pub parse_entries : Bytes → Endian → ElfClass → List Bytes → Outcome (List Symbol)
parse_entries strtab endian class [] = ok []
parse_entries strtab endian class (entry ∷ entries) = do
  symbol ← parse_entry strtab entry endian class
  symbols ← parse_entries strtab endian class entries
  ok (symbol ∷ symbols)

unfoldable pub parse : Bytes → Bytes → Endian → ElfClass → Outcome (List Symbol)
parse bytes strtab endian class = do
  reject_if (not (length bytes % entry_size class == 0))
      (invalid_section "symbol table is not a whole number of entries")
  parse_entries strtab endian class (chunks_exact (entry_size class) bytes)
