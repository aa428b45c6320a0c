-- ===== src/Header/RoundTrip.antt =====
-- A file header, written and read back, in both classes and byte orders.
use elfex.Common.{◌<◌, ◌≡◌, refl, ap, Bytes, concat_onto}
use elfex.Common.Outcome.{ok, u64_mod}
use elfex.Common.Words.{low32, low32-lt}
use elfex.Ident.{ElfIdent}
use elfex.Ident.ElfClass.{ElfClass, elf32, elf64}
use elfex.Ident.Endian.{Endian}
use elfex.Reader.{slice_reader}
use elfex.Reader.Fields.{At, behind, read_u16, read_u32, read_u64}
use elfex.Header.{ElfHeader, parse, parse_addresses, fields}
use elfex.Header.ElfType.{from_u16, to_u16}

-- What the types of the fields say: `u16`, `u32` and `u64`.
pub record IsTyped (h : ElfHeader) : Type 0 where
  pub type_lt : to_u16 h.type < 0x10000
  pub machine_lt : h.machine < 0x10000
  pub version_lt : h.version < 0x100000000
  pub entry_lt : h.entry < u64_mod
  pub phoff_lt : h.phoff < u64_mod
  pub shoff_lt : h.shoff < u64_mod
  pub flags_lt : h.flags < 0x100000000
  pub ehsize_lt : h.ehsize < 0x10000
  pub phentsize_lt : h.phentsize < 0x10000
  pub phnum_lt : h.phnum < 0x10000
  pub shentsize_lt : h.shentsize < 0x10000
  pub shnum_lt : h.shnum < 0x10000
  pub shstrndx_lt : h.shstrndx < 0x10000

-- What is read back of a header: a type by its own constructor where it has one, and the
-- lower halves of the addresses in a 32-bit object.
unfoldable pub narrow : ElfClass → ElfHeader → ElfHeader
narrow elf64 h = record h { type = from_u16 (to_u16 h.type) }
narrow elf32 h = record h {
  type = from_u16 (to_u16 h.type);
  entry = low32 h.entry;
  phoff = low32 h.phoff;
  shoff = low32 h.shoff;
}

module _ (bytes : Bytes) (e : Endian) (h : ElfHeader) (rest : Bytes) where
  parse_64 :
      (i : ElfIdent)
      → i.class ≡ elf64
      → i.encoding ≡ e
      → IsTyped h
      → At bytes 16 (concat_onto (fields h e elf64) rest)
      → parse (slice_reader bytes) i ≡ ok (record (narrow elf64 h) { ident = i })
  unfolding parse parse_addresses fields narrow
  parse_64 i ci ei t a16 =
      let a18 = behind bytes 0 e 2 16 18 (to_u16 h.type) _ a16 refl in
      let a20 = behind bytes 0 e 2 18 20 h.machine _ a18 refl in
      let a24 = behind bytes 0 e 4 20 24 h.version _ a20 refl in
      let a32 = behind bytes 0 e 8 24 32 h.entry _ a24 refl in
      let a40 = behind bytes 0 e 8 32 40 h.phoff _ a32 refl in
      let a48 = behind bytes 0 e 8 40 48 h.shoff _ a40 refl in
      let a52 = behind bytes 0 e 4 48 52 h.flags _ a48 refl in
      let a54 = behind bytes 0 e 2 52 54 h.ehsize _ a52 refl in
      let a56 = behind bytes 0 e 2 54 56 h.phentsize _ a54 refl in
      let a58 = behind bytes 0 e 2 56 58 h.phnum _ a56 refl in
      let a60 = behind bytes 0 e 2 58 60 h.shentsize _ a58 refl in
      let a62 = behind bytes 0 e 2 60 62 h.shnum _ a60 refl in
      rw (
        ci,
        ei,
        read_u16 bytes 18 e h.machine _ t.machine_lt a18,
        read_u64 bytes 24 e h.entry _ t.entry_lt a24,
        read_u64 bytes 32 e h.phoff _ t.phoff_lt a32,
        read_u64 bytes 40 e h.shoff _ t.shoff_lt a40,
        read_u16 bytes 16 e (to_u16 h.type) _ t.type_lt a16,
        read_u32 bytes 20 e h.version _ t.version_lt a20,
        read_u32 bytes 48 e h.flags _ t.flags_lt a48,
        read_u16 bytes 52 e h.ehsize _ t.ehsize_lt a52,
        read_u16 bytes 54 e h.phentsize _ t.phentsize_lt a54,
        read_u16 bytes 56 e h.phnum _ t.phnum_lt a56,
        read_u16 bytes 58 e h.shentsize _ t.shentsize_lt a58,
        read_u16 bytes 60 e h.shnum _ t.shnum_lt a60,
        read_u16 bytes 62 e h.shstrndx _ t.shstrndx_lt a62,
      )

  parse_32 :
      (i : ElfIdent)
      → i.class ≡ elf32
      → i.encoding ≡ e
      → IsTyped h
      → At bytes 16 (concat_onto (fields h e elf32) rest)
      → parse (slice_reader bytes) i ≡ ok (record (narrow elf32 h) { ident = i })
  unfolding parse parse_addresses fields narrow
  parse_32 i ci ei t a16 =
      let a18 = behind bytes 0 e 2 16 18 (to_u16 h.type) _ a16 refl in
      let a20 = behind bytes 0 e 2 18 20 h.machine _ a18 refl in
      let a24 = behind bytes 0 e 4 20 24 h.version _ a20 refl in
      let a28 = behind bytes 0 e 4 24 28 (low32 h.entry) _ a24 refl in
      let a32 = behind bytes 0 e 4 28 32 (low32 h.phoff) _ a28 refl in
      let a36 = behind bytes 0 e 4 32 36 (low32 h.shoff) _ a32 refl in
      let a40 = behind bytes 0 e 4 36 40 h.flags _ a36 refl in
      let a42 = behind bytes 0 e 2 40 42 h.ehsize _ a40 refl in
      let a44 = behind bytes 0 e 2 42 44 h.phentsize _ a42 refl in
      let a46 = behind bytes 0 e 2 44 46 h.phnum _ a44 refl in
      let a48 = behind bytes 0 e 2 46 48 h.shentsize _ a46 refl in
      let a50 = behind bytes 0 e 2 48 50 h.shnum _ a48 refl in
      rw (
        ci,
        ei,
        read_u16 bytes 18 e h.machine _ t.machine_lt a18,
        read_u32 bytes 24 e (low32 h.entry) _ (low32-lt h.entry) a24,
        read_u32 bytes 28 e (low32 h.phoff) _ (low32-lt h.phoff) a28,
        read_u32 bytes 32 e (low32 h.shoff) _ (low32-lt h.shoff) a32,
        read_u16 bytes 16 e (to_u16 h.type) _ t.type_lt a16,
        read_u32 bytes 20 e h.version _ t.version_lt a20,
        read_u32 bytes 36 e h.flags _ t.flags_lt a36,
        read_u16 bytes 40 e h.ehsize _ t.ehsize_lt a40,
        read_u16 bytes 42 e h.phentsize _ t.phentsize_lt a42,
        read_u16 bytes 44 e h.phnum _ t.phnum_lt a44,
        read_u16 bytes 46 e h.shentsize _ t.shentsize_lt a46,
        read_u16 bytes 48 e h.shnum _ t.shnum_lt a48,
        read_u16 bytes 50 e h.shstrndx _ t.shstrndx_lt a50,
      )

-- Where a slice goes on with the fields of a header behind 16 bytes of identification, the header
-- is read.
pub parse-At :
    (bytes : Bytes) (h : ElfHeader) (rest : Bytes) (c : ElfClass)
    → h.ident.class ≡ c
    → IsTyped h
    → At bytes 16 (concat_onto (fields h h.ident.encoding c) rest)
    → parse (slice_reader bytes) h.ident ≡ ok (narrow c h)
unfolding narrow
parse-At bytes h rest elf64 q t a = parse_64 bytes h.ident.encoding h rest h.ident q refl t a
parse-At bytes h rest elf32 q t a = parse_32 bytes h.ident.encoding h rest h.ident q refl t a

-- A header whose type is not a known number under `other` comes back whole in a 64-bit object.
pub narrow_64 : (h : ElfHeader) → from_u16 (to_u16 h.type) ≡ h.type → narrow elf64 h ≡ h
unfolding narrow
narrow_64 h q = ap (λ t. record h { type = t }) q
