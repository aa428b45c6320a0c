-- ===== src/Headers/Typed.antt =====
-- The structural headers that are read from a source of bytes.
use elfex.Common.{ℕ, zero, suc, ◌+◌, ◌*◌, ◌≡◌, All, replicate}
use elfex.Common.Gives.{Gives, Gives-ok, Gives-bind, Gives-any}
use elfex.Common.Outcome.{ok_or, checked_add}
use elfex.Header
use elfex.Header.Typed as HeaderTyped
use elfex.Header.RoundTrip as HeaderTrip
use elfex.Headers.{ElfHeaders, read_table, read_from}
use elfex.Ident
use elfex.Ident.{ei_nident}
use elfex.Ident.ElfClass.{ElfClass}
use elfex.Ident.Endian.{Endian}
use elfex.Program
use elfex.Program.{ProgramHeader}
use elfex.Program.Typed as ProgramTyped
use elfex.Reader.{ReadAt, read_exact_at}
use elfex.Reader.Typed.{Honest}

-- What is known of headers that were read.
pub record AreRead (headers : ElfHeaders) : Type 0 where
  pub ident : headers.header.ident ≡ headers.ident
  pub header : HeaderTrip.IsTyped headers.header
  pub header_fits : HeaderTyped.FitsClass headers.ident.class headers.header
  pub table : All (ProgramTyped.IsRead headers.ident.class) headers.program_headers

module _ (reader : ReadAt) (honest : Honest reader) where
  read_table-IsRead :
      (e : Endian) (class : ElfClass) (phoff index left : ℕ)
      → Gives (All (ProgramTyped.IsRead class)) (read_table reader e class phoff index left)
  unfolding read_table
  read_table-IsRead e class phoff index zero = Gives-ok tt
  read_table-IsRead e class phoff index (suc left) =
      Gives-bind (ok_or (checked_add phoff (index * Program.size class)) _) Gives-any (λ offset a.
        Gives-bind (Program.parse reader offset e class)
          (ProgramTyped.parse-IsRead reader honest offset e class)
          (λ header h.
            Gives-bind (read_table reader e class phoff (index + 1) left)
              (read_table-IsRead e class phoff (index + 1) left) (λ headers hs. Gives-ok (h, hs))))

  pub read_from-AreRead : Gives AreRead (read_from reader)
  unfolding read_from
  read_from-AreRead =
      Gives-bind (read_exact_at reader 0 (replicate ei_nident 0)) Gives-any (λ ident_bytes a.
        Gives-bind (Ident.parse ident_bytes) Gives-any (λ ident b.
          Gives-bind (Header.parse reader ident) (HeaderTyped.parse-IsRead reader honest ident)
            (λ header h.
              Gives-bind (read_table reader ident.encoding ident.class header.phoff 0 header.phnum)
                (read_table-IsRead ident.encoding ident.class header.phoff 0 header.phnum)
                (λ table t.
                  Gives-ok (record { ident = h.0; header = h.1; header_fits = h.2; table = t })))))
