-- ===== src/Section.antt =====
-- src/section.rs: section headers and sections.
pub mod SectionType
pub mod RoundTrip
pub mod Typed
use Prim.Native.Nat.{bit_and}
use elfex.Common.{ℕ, Bytes, List, [], ◌∷◌, ◌++◌, concat, Bool, not, ◌&&◌, ltb, leb, ◌==◌}
use elfex.Common.Outcome.{Outcome, ok, ◌>>=◌, saturating_add}
use elfex.Common.Words.{low32}
use elfex.Ident.ElfClass.{ElfClass, elf32, elf64}
use elfex.Ident.Endian.{Endian, u32_bytes, u64_bytes}
use elfex.Reader.{ReadAt, read_u32_at, u32_field, u64_field}

-- `sh_flags`: writable, allocated and executable.
abbrev pub shf_write : ℕ
shf_write = 1

abbrev pub shf_alloc : ℕ
shf_alloc = 2

abbrev pub shf_execinstr : ℕ
shf_execinstr = 4

unfoldable pub is_alloc : ℕ → Bool
is_alloc flags = not (bit_and flags shf_alloc == 0)

unfoldable pub is_writable : ℕ → Bool
is_writable flags = not (bit_and flags shf_write == 0)

unfoldable pub is_executable : ℕ → Bool
is_executable flags = not (bit_and flags shf_execinstr == 0)

-- `type` and `flags` are the numbers that `SectionType` and `SectionFlags` wrap.
pub record SectionHeader : Type 0 where
  pub name_index : ℕ
  pub type : ℕ
  pub flags : ℕ
  pub addr : ℕ
  pub offset : ℕ
  pub size : ℕ
  pub link : ℕ
  pub info : ℕ
  pub addralign : ℕ
  pub entsize : ℕ

unfoldable pub header_size : ElfClass → ℕ
header_size elf32 = 40
header_size elf64 = 64

unfoldable pub parse : ReadAt → ℕ → Endian → ElfClass → Outcome SectionHeader
parse reader offset endian elf64 = do
  name_index ← read_u32_at reader offset endian
  type ← u32_field reader offset 4 endian
  flags ← u64_field reader offset 8 endian
  addr ← u64_field reader offset 16 endian
  sh_offset ← u64_field reader offset 24 endian
  size ← u64_field reader offset 32 endian
  link ← u32_field reader offset 40 endian
  info ← u32_field reader offset 44 endian
  addralign ← u64_field reader offset 48 endian
  entsize ← u64_field reader offset 56 endian
  ok (record {
    name_index = name_index;
    type = type;
    flags = flags;
    addr = addr;
    offset = sh_offset;
    size = size;
    link = link;
    info = info;
    addralign = addralign;
    entsize = entsize;
  })
parse reader offset endian elf32 = do
  name_index ← read_u32_at reader offset endian
  type ← u32_field reader offset 4 endian
  flags ← u32_field reader offset 8 endian
  addr ← u32_field reader offset 12 endian
  sh_offset ← u32_field reader offset 16 endian
  size ← u32_field reader offset 20 endian
  link ← u32_field reader offset 24 endian
  info ← u32_field reader offset 28 endian
  addralign ← u32_field reader offset 32 endian
  entsize ← u32_field reader offset 36 endian
  ok (record {
    name_index = name_index;
    type = type;
    flags = flags;
    addr = addr;
    offset = sh_offset;
    size = size;
    link = link;
    info = info;
    addralign = addralign;
    entsize = entsize;
  })

-- The slices that `write` appends, in order.
unfoldable pub fields : SectionHeader → Endian → ElfClass → List Bytes
fields h e elf64 =
    u32_bytes e h.name_index
    ∷ u32_bytes e h.type
    ∷ u64_bytes e h.flags
    ∷ u64_bytes e h.addr
    ∷ u64_bytes e h.offset
    ∷ u64_bytes e h.size
    ∷ u32_bytes e h.link
    ∷ u32_bytes e h.info
    ∷ u64_bytes e h.addralign
    ∷ u64_bytes e h.entsize
    ∷ []
fields h e elf32 =
    u32_bytes e h.name_index
    ∷ u32_bytes e h.type
    ∷ u32_bytes e (low32 h.flags)
    ∷ u32_bytes e (low32 h.addr)
    ∷ u32_bytes e (low32 h.offset)
    ∷ u32_bytes e (low32 h.size)
    ∷ u32_bytes e h.link
    ∷ u32_bytes e h.info
    ∷ u32_bytes e (low32 h.addralign)
    ∷ u32_bytes e (low32 h.entsize)
    ∷ []

unfoldable pub write : SectionHeader → Bytes → Endian → ElfClass → Bytes
write h out endian class = out ++ concat (fields h endian class)

unfoldable pub is_nobits : SectionHeader → Bool
is_nobits h = h.type == SectionType.nobits

-- `bytes` is the field `data`; a name is its UTF-8 bytes.
pub record Section : Type 0 where
  pub header : SectionHeader
  pub name : Bytes
  pub bytes : Bytes

unfoldable pub contains_vaddr : Section → ℕ → Bool
contains_vaddr s vaddr =
    is_alloc s.header.flags
    && leb s.header.addr vaddr
    && ltb vaddr (saturating_add s.header.addr s.header.size)
