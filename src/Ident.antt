-- ===== src/Ident.antt =====
-- src/ident.rs: the identification array. Its class and byte order are in children.
pub mod ElfClass
pub mod Endian
pub mod Words
pub mod RoundTrip
use elfex.Common.{ℕ, Bytes, [], ◌∷◌, not, take}
use elfex.Common.Outcome.{Outcome, ok, ◌>>=◌, ◌>>◌, reject_if, invalid_magic}
use elfex.Common.Slices.{bytes_eq, index}

abbrev pub elf_magic : Bytes
elf_magic = 0x7f ∷ b'E' ∷ b'L' ∷ b'F' ∷ []

abbrev pub ei_nident : ℕ
ei_nident = 16

-- `os_abi` is the byte that the newtype `OsAbi` wraps.
pub record ElfIdent : Type 0 where
  pub class : ElfClass.ElfClass
  pub encoding : Endian.Endian
  pub version : ℕ
  pub os_abi : ℕ
  pub abi_version : ℕ

unfoldable pub parse : Bytes → Outcome ElfIdent
parse bytes = do
  reject_if (not (bytes_eq (take 4 bytes) elf_magic)) invalid_magic
  class ← ElfClass.from_byte (← index bytes 4)
  encoding ← Endian.from_byte (← index bytes 5)
  version ← index bytes 6
  os_abi ← index bytes 7
  abi_version ← index bytes 8
  ok (record {
    class = class;
    encoding = encoding;
    version = version;
    os_abi = os_abi;
    abi_version = abi_version;
  })

-- `[0u8; 16]` with the first nine bytes set.
unfoldable pub to_bytes : ElfIdent → Bytes
to_bytes ident =
    0x7f
    ∷ b'E'
    ∷ b'L'
    ∷ b'F'
    ∷ ElfClass.to_byte ident.class
    ∷ Endian.to_byte ident.encoding
    ∷ ident.version
    ∷ ident.os_abi
    ∷ ident.abi_version
    ∷ 0
    ∷ 0
    ∷ 0
    ∷ 0
    ∷ 0
    ∷ 0
    ∷ 0
    ∷ []
