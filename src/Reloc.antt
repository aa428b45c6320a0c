-- ===== src/Reloc.antt =====
-- src/reloc.rs: relocation tables and the classification of x86 relocation types.
pub mod Classes
use elfex.Common.{
  ℕ, ◌/◌, ◌%◌, Bytes, List, [], ◌∷◌, Option, none, some, Bool, true, false, ◌==◌, ◌||◌, ◌&&◌, leb,
  not, if◌then◌else◌, length,
}
use elfex.Common.Int.{ℤ}
use elfex.Common.Outcome.{Outcome, ok, ◌>>=◌, ◌>>◌, reject_if, invalid_section}
use elfex.Common.Slices.{chunks_exact}
use elfex.Common.Words.{low32}
use elfex.Ident.ElfClass.{ElfClass, elf32, elf64}
use elfex.Ident.Endian.{Endian, u32, u64, i32, i64}
use elfex.ParseUtils.{array4, array8}

pub record RelocationEntry : Type 0 where
  pub offset : ℕ
  pub symbol : ℕ
  pub r_type : ℕ
  pub addend : Option ℤ

pub record RelocationSection : Type 0 where
  pub entries : List RelocationEntry
  pub is_rela : Bool

unfoldable pub entry_size : ElfClass → Bool → ℕ
entry_size elf64 false = 16
entry_size elf64 true = 24
entry_size elf32 false = 8
entry_size elf32 true = 12

-- A shift to the right by k is a division by 2^k, and a mask of k ones a remainder.
unfoldable pub split_symbol : ElfClass → ℕ → ℕ
split_symbol elf64 info = low32 (info / 0x100000000)
split_symbol elf32 info = low32 (info / 0x100)

unfoldable pub split_type : ElfClass → ℕ → ℕ
split_type elf64 info = low32 (info % 0x100000000)
split_type elf32 info = low32 (info % 0x100)

unfoldable pub entry_words : Bytes → Endian → ElfClass → Outcome (ℕ × ℕ)
entry_words entry endian elf64 = do
  offset ← array8 entry 0
  info ← array8 entry 8
  ok (u64 endian offset, u64 endian info)
entry_words entry endian elf32 = do
  offset ← array4 entry 0
  info ← array4 entry 4
  ok (u32 endian offset, u32 endian info)

unfoldable pub entry_addend : Bytes → Bool → Endian → ElfClass → Outcome (Option ℤ)
entry_addend entry false endian class = ok none
entry_addend entry true endian elf64 = do addend ← array8 entry 16; ok (some (i64 endian addend))
entry_addend entry true endian elf32 = do addend ← array4 entry 8; ok (some (i32 endian addend))

unfoldable pub parse_entry : Bytes → Bool → Endian → ElfClass → Outcome RelocationEntry
parse_entry entry is_rela endian class = do
  (offset, info) ← entry_words entry endian class
  addend ← entry_addend entry is_rela endian class
  ok (record {
    offset = offset;
    symbol = split_symbol class info;
    r_type = split_type class info;
    addend = addend;
  })

unfoldable pub parse_entries :
    Bool → Endian → ElfClass → List Bytes → Outcome (List RelocationEntry)
parse_entries is_rela endian class [] = ok []
parse_entries is_rela endian class (entry ∷ more) = do
  first ← parse_entry entry is_rela endian class
  entries ← parse_entries is_rela endian class more
  ok (first ∷ entries)

unfoldable pub parse : Bytes → Bool → Endian → ElfClass → Outcome RelocationSection
parse bytes is_rela endian class = do
  reject_if (not (length bytes % entry_size class is_rela == 0))
      (invalid_section "relocation table is not a whole number of entries")
  entries ← parse_entries is_rela endian class (chunks_exact (entry_size class is_rela) bytes)
  ok (record { entries = entries; is_rela = is_rela })

pub data RelocKind : Type 0 where
  relative global_data jump_slot absolute copy tls indirect_function other : RelocKind

unfoldable pub kind_x86_64 : ℕ → RelocKind
kind_x86_64 t =
    if t == 8
    then relative
    else if t == 6
    then global_data
    else if t == 7
    then jump_slot
    else if t == 1
    then absolute
    else if t == 5
    then copy
    else if leb 16 t && leb t 18
    then tls
    else if t == 37
    then indirect_function
    else other

unfoldable pub kind_i386 : ℕ → RelocKind
kind_i386 t =
    if t == 8
    then relative
    else if t == 6
    then global_data
    else if t == 7
    then jump_slot
    else if t == 1
    then absolute
    else if t == 5
    then copy
    else if t == 14 || t == 15 || t == 35 || t == 36 || t == 37
    then tls
    else if t == 42
    then indirect_function
    else other

unfoldable pub relocation_kind : ℕ → ℕ → RelocKind
relocation_kind machine r_type =
    if machine == 62 then kind_x86_64 r_type else if machine == 3 then kind_i386 r_type else other

unfoldable pub width_x86_64 : ℕ → Option ℕ
width_x86_64 t =
    if t == 8 || t == 6 || t == 7 || t == 1 || t == 5 || t == 16 || t == 17 || t == 18 || t == 37
    then some 8
    else if t == 2 || t == 10 || t == 11
    then some 4
    else none

unfoldable pub width_i386 : ℕ → Option ℕ
width_i386 t = if t == 8 || t == 6 || t == 7 || t == 1 || t == 5 || t == 42 then some 4 else none

unfoldable pub relocation_width : ℕ → ℕ → Option ℕ
relocation_width machine r_type =
    if machine == 62 then width_x86_64 r_type else if machine == 3 then width_i386 r_type else none
