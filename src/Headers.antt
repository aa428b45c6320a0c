-- ===== src/Headers.antt =====
-- `ElfHeaders` of src/header.rs: the identity, the file header and the program header table.
pub mod Table
pub mod RoundTrip
pub mod Typed
use elfex.Common.{ℕ, zero, suc, ◌+◌, ◌*◌, Bytes, List, [], ◌∷◌, replicate}
use elfex.Common.Outcome.{Outcome, ok, ◌>>=◌, ok_or, checked_add, generic}
use elfex.Header
use elfex.Header.{ElfHeader}
use elfex.Ident
use elfex.Ident.{ElfIdent, ei_nident}
use elfex.Ident.ElfClass.{ElfClass}
use elfex.Ident.Endian.{Endian}
use elfex.Program
use elfex.Program.{ProgramHeader}
use elfex.Reader.{ReadAt, read_exact_at, slice_reader}

pub record ElfHeaders : Type 0 where
  pub ident : ElfIdent
  pub header : ElfHeader
  pub program_headers : List ProgramHeader

-- The loop over the table, from entry `index` on, with the entries left. The product of an index
-- below 2^16 and an entry size cannot overflow.
unfoldable pub read_table : ReadAt → Endian → ElfClass → ℕ → ℕ → ℕ → Outcome (List ProgramHeader)
read_table reader endian class phoff index zero = ok []
read_table reader endian class phoff index (suc left) = do
  offset ←
      ok_or (checked_add phoff (index * Program.size class))
        (generic "program header table offset overflows")
  header ← Program.parse reader offset endian class
  program_headers ← read_table reader endian class phoff (index + 1) left
  ok (header ∷ program_headers)

unfoldable pub read_from : ReadAt → Outcome ElfHeaders
read_from reader = do
  ident_bytes ← read_exact_at reader 0 (replicate ei_nident 0)
  ident ← Ident.parse ident_bytes
  header ← Header.parse reader ident
  program_headers ← read_table reader ident.encoding ident.class header.phoff 0 header.phnum
  ok (record { ident = ident; header = header; program_headers = program_headers })

unfoldable pub from_slice : Bytes → Outcome ElfHeaders
from_slice bytes = read_from (slice_reader bytes)
