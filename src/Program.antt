-- ===== src/Program.antt =====
-- src/program.rs: program headers and segments.
pub mod SegmentType
pub mod RoundTrip
pub mod Typed
use Prim.Native.Nat.{bit_and}
use elfex.Common.{
  ℕ, ◌-◌, Bytes, [], ◌∷◌, ◌++◌, concat, Bool, not, ◌&&◌, ltb, leb, ◌==◌, Option, none, some,
  if◌then◌else◌, min, length, take, List,
}
use elfex.Common.Outcome.{Outcome, ok, ◌>>=◌, saturating_add}
use elfex.Common.Slices.{get_from}
use elfex.Common.Words.{low32}
use elfex.Ident.ElfClass.{ElfClass, elf32, elf64}
use elfex.Ident.Endian.{Endian, u32_bytes, u64_bytes}
use elfex.Reader.{ReadAt, read_u32_at, u32_field, u64_field}

-- `p_flags`: execute, write and read permission.
abbrev pub pf_x : ℕ
pf_x = 1

abbrev pub pf_w : ℕ
pf_w = 2

abbrev pub pf_r : ℕ
pf_r = 4

unfoldable pub is_executable : ℕ → Bool
is_executable flags = not (bit_and flags pf_x == 0)

unfoldable pub is_writable : ℕ → Bool
is_writable flags = not (bit_and flags pf_w == 0)

unfoldable pub is_readable : ℕ → Bool
is_readable flags = not (bit_and flags pf_r == 0)

-- `type` and `flags` are the numbers that `SegmentType` and `SegmentFlags` wrap.
pub record ProgramHeader : Type 0 where
  pub type : ℕ
  pub flags : ℕ
  pub offset : ℕ
  pub vaddr : ℕ
  pub paddr : ℕ
  pub filesz : ℕ
  pub memsz : ℕ
  pub align : ℕ

unfoldable pub size : ElfClass → ℕ
size elf32 = 32
size elf64 = 56

unfoldable pub parse : ReadAt → ℕ → Endian → ElfClass → Outcome ProgramHeader
parse reader offset endian elf64 = do
  type ← read_u32_at reader offset endian
  flags ← u32_field reader offset 4 endian
  p_offset ← u64_field reader offset 8 endian
  vaddr ← u64_field reader offset 16 endian
  paddr ← u64_field reader offset 24 endian
  filesz ← u64_field reader offset 32 endian
  memsz ← u64_field reader offset 40 endian
  align ← u64_field reader offset 48 endian
  ok (record {
    type = type;
    flags = flags;
    offset = p_offset;
    vaddr = vaddr;
    paddr = paddr;
    filesz = filesz;
    memsz = memsz;
    align = align;
  })
parse reader offset endian elf32 = do
  type ← read_u32_at reader offset endian
  p_offset ← u32_field reader offset 4 endian
  vaddr ← u32_field reader offset 8 endian
  paddr ← u32_field reader offset 12 endian
  filesz ← u32_field reader offset 16 endian
  memsz ← u32_field reader offset 20 endian
  flags ← u32_field reader offset 24 endian
  align ← u32_field reader offset 28 endian
  ok (record {
    type = type;
    flags = flags;
    offset = p_offset;
    vaddr = vaddr;
    paddr = paddr;
    filesz = filesz;
    memsz = memsz;
    align = align;
  })

-- The slices that `write` appends, in order.
unfoldable pub fields : ProgramHeader → Endian → ElfClass → List Bytes
fields h e elf64 =
    u32_bytes e h.type
    ∷ u32_bytes e h.flags
    ∷ u64_bytes e h.offset
    ∷ u64_bytes e h.vaddr
    ∷ u64_bytes e h.paddr
    ∷ u64_bytes e h.filesz
    ∷ u64_bytes e h.memsz
    ∷ u64_bytes e h.align
    ∷ []
fields h e elf32 =
    u32_bytes e h.type
    ∷ u32_bytes e (low32 h.offset)
    ∷ u32_bytes e (low32 h.vaddr)
    ∷ u32_bytes e (low32 h.paddr)
    ∷ u32_bytes e (low32 h.filesz)
    ∷ u32_bytes e (low32 h.memsz)
    ∷ u32_bytes e h.flags
    ∷ u32_bytes e (low32 h.align)
    ∷ []

unfoldable pub write : ProgramHeader → Bytes → Endian → ElfClass → Bytes
write h out endian class = out ++ concat (fields h endian class)

unfoldable pub is_load : ProgramHeader → Bool
is_load h = h.type == SegmentType.load

-- `bytes` is the field `data`.
pub record Segment : Type 0 where
  pub header : ProgramHeader
  pub bytes : Bytes

unfoldable pub contains_vaddr : Segment → ℕ → Bool
contains_vaddr s vaddr =
    leb s.header.vaddr vaddr && ltb vaddr (saturating_add s.header.vaddr s.header.memsz)

unfoldable pub data_at_vaddr : Segment → ℕ → ℕ → Option Bytes
data_at_vaddr s vaddr len =
    if not (contains_vaddr s vaddr)
    then none
    else elim (get_from s.bytes (vaddr - s.header.vaddr)) [
      | none ↦ none
      | some available ↦ some (take (min len (length available)) available)
    ]
