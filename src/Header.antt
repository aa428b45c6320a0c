-- ===== src/Header.antt =====
-- src/header.rs: the file header.
pub mod ElfType
pub mod Machine
pub mod RoundTrip
pub mod Typed
use elfex.Common.{ℕ, ◌+◌, Bytes, List, [], ◌∷◌, ◌++◌, concat}
use elfex.Common.Outcome.{Outcome, ok, ◌>>=◌}
use elfex.Common.Words.{low32}
use elfex.Ident.{ElfIdent, to_bytes}
use elfex.Ident.ElfClass.{ElfClass, elf32, elf64}
use elfex.Ident.Endian.{Endian, u16_bytes, u32_bytes, u64_bytes}
use elfex.Reader.{ReadAt, read_u16_at, read_u32_at, read_u64_at}

pub record ElfHeader : Type 0 where
  pub ident : ElfIdent
  pub type : ElfType.ElfType
  pub machine : ℕ
  pub version : ℕ
  pub entry : ℕ
  pub phoff : ℕ
  pub shoff : ℕ
  pub flags : ℕ
  pub ehsize : ℕ
  pub phentsize : ℕ
  pub phnum : ℕ
  pub shentsize : ℕ
  pub shnum : ℕ
  pub shstrndx : ℕ

unfoldable pub size : ElfClass → ℕ
size elf32 = 52
size elf64 = 64

-- The fields from `e_entry` to `e_shoff`, and the offset behind them.
unfoldable pub parse_addresses : ReadAt → Endian → ElfClass → Outcome (ℕ × ℕ × ℕ × ℕ)
parse_addresses reader endian elf64 = do
  entry ← read_u64_at reader 24 endian
  phoff ← read_u64_at reader 32 endian
  shoff ← read_u64_at reader 40 endian
  ok (entry, phoff, shoff, 48)
parse_addresses reader endian elf32 = do
  entry ← read_u32_at reader 24 endian
  phoff ← read_u32_at reader 28 endian
  shoff ← read_u32_at reader 32 endian
  ok (entry, phoff, shoff, 36)

unfoldable pub parse : ReadAt → ElfIdent → Outcome ElfHeader
parse reader ident = do
  let endian = ident.encoding
  machine ← read_u16_at reader 18 endian
  (entry, phoff, shoff, tail) ← parse_addresses reader endian ident.class
  type ← read_u16_at reader 16 endian
  version ← read_u32_at reader 20 endian
  flags ← read_u32_at reader tail endian
  ehsize ← read_u16_at reader (tail + 4) endian
  phentsize ← read_u16_at reader (tail + 6) endian
  phnum ← read_u16_at reader (tail + 8) endian
  shentsize ← read_u16_at reader (tail + 10) endian
  shnum ← read_u16_at reader (tail + 12) endian
  shstrndx ← read_u16_at reader (tail + 14) endian
  ok (record {
    ident = ident;
    type = ElfType.from_u16 type;
    machine = machine;
    version = version;
    entry = entry;
    phoff = phoff;
    shoff = shoff;
    flags = flags;
    ehsize = ehsize;
    phentsize = phentsize;
    phnum = phnum;
    shentsize = shentsize;
    shnum = shnum;
    shstrndx = shstrndx;
  })

-- The slices that `write` appends, in order.
abbrev pub address_fields : ElfHeader → Endian → ElfClass → List Bytes → List Bytes
address_fields h e elf64 more =
    u64_bytes e h.entry ∷ u64_bytes e h.phoff ∷ u64_bytes e h.shoff ∷ more
address_fields h e elf32 more =
    u32_bytes e (low32 h.entry) ∷ u32_bytes e (low32 h.phoff) ∷ u32_bytes e (low32 h.shoff) ∷ more

unfoldable pub fields : ElfHeader → Endian → ElfClass → List Bytes
fields h e class =
    u16_bytes e (ElfType.to_u16 h.type)
    ∷ u16_bytes e h.machine
    ∷ u32_bytes e h.version
    ∷ address_fields h e class (
        u32_bytes e h.flags
        ∷ u16_bytes e h.ehsize
        ∷ u16_bytes e h.phentsize
        ∷ u16_bytes e h.phnum
        ∷ u16_bytes e h.shentsize
        ∷ u16_bytes e h.shnum
        ∷ u16_bytes e h.shstrndx
        ∷ [])

unfoldable pub write : ElfHeader → Bytes → Bytes
write h out = out ++ concat (to_bytes h.ident ∷ fields h h.ident.encoding h.ident.class)
