-- ===== src/Headers/RoundTrip.antt =====
-- The headers of a slice that begins with a written file header and its table.
use elfex.Common.{
  ℕ, ◌+◌, ◌*◌, ◌<◌, ◌≡◌, refl, ap, ap₂, ◌∙◌, subst, arith, Bytes, List, [], ◌++◌, append_assoc, All,
  map, length, length-append, concat, concat_onto, concat-append, replicate,
}
use elfex.Common.Outcome.{ok, u64_mod}
use elfex.Common.Words.{low32-small}
use elfex.Header
use elfex.Header.{ElfHeader}
use elfex.Header.RoundTrip as HeaderTrip
use elfex.Headers.{read_table, read_from, from_slice}
use elfex.Headers.Table.{write_table, table_onto, write_table-append, read_table-At}
use elfex.Ident.{to_bytes}
use elfex.Ident.ElfClass.{ElfClass, elf32, elf64}
use elfex.Ident.Endian.{Endian}
use elfex.Ident.RoundTrip.{parse-to_bytes}
use elfex.Ident.Words.{length-word_bytes}
use elfex.Program
use elfex.Program.{ProgramHeader}
use elfex.Program.RoundTrip as ProgramTrip
use elfex.Reader.{slice_reader, read_exact_at}
use elfex.Reader.Slice.{read_exact_at-slice}
use elfex.Reader.Fields.{At, At-behind}

pub length-fields :
    (h : ElfHeader) (e : Endian) (class : ElfClass)
    → 16 + length (concat (Header.fields h e class)) ≡ Header.size class
unfolding Header.fields Header.size
length-fields h e elf32 = simp (length-append, length-word_bytes)
length-fields h e elf64 = simp (length-append, length-word_bytes)

narrow-phnum : (c : ElfClass) (h : ElfHeader) → (HeaderTrip.narrow c h).phnum ≡ h.phnum
unfolding HeaderTrip.narrow
narrow-phnum elf32 h = refl
narrow-phnum elf64 h = refl

narrow-phoff :
    (c : ElfClass) (h : ElfHeader)
    → h.phoff ≡ Header.size c
    → (HeaderTrip.narrow c h).phoff ≡ Header.size c
unfolding HeaderTrip.narrow Header.size
narrow-phoff elf32 h q = rw q (low32-small 52 (omega arith))
narrow-phoff elf64 h q = q

-- A file header with its table behind it, in front of `rest`.
abbrev pub image_onto : ElfHeader → List ProgramHeader → Bytes → Bytes
image_onto h hs rest =
    to_bytes h.ident
    ++ concat_onto (Header.fields h h.ident.encoding h.ident.class)
        (table_onto hs h.ident.encoding h.ident.class rest)

write-image_onto :
    (h : ElfHeader) (hs : List ProgramHeader) (rest : Bytes)
    → write_table hs (Header.write h []) h.ident.encoding h.ident.class ++ rest
      ≡ image_onto h hs rest
unfolding Header.write
write-image_onto h hs rest =
    write_table-append hs (Header.write h []) h.ident.encoding h.ident.class rest
    ∙ append_assoc (to_bytes h.ident) _ _
    ∙ ap (◌++◌ (to_bytes h.ident))
        (concat-append (Header.fields h h.ident.encoding h.ident.class) _)

module _ (h : ElfHeader) (hs : List ProgramHeader) (rest : Bytes) where
  image-At :
      length (image_onto h hs rest) < u64_mod → At (image_onto h hs rest) 0 (image_onto h hs rest)
  image-At fits = record { from = refl; within = omega arith; fits = fits }

  header-At :
      length (image_onto h hs rest) < u64_mod
      → At (image_onto h hs rest) 16 (
          concat_onto
            (Header.fields h h.ident.encoding h.ident.class)
            (table_onto hs h.ident.encoding h.ident.class rest))
  unfolding to_bytes
  header-At fits = At-behind _ 0 (to_bytes h.ident) _ (image-At fits)

  table-At :
      length (image_onto h hs rest) < u64_mod
      → At
          (image_onto h hs rest)
          (Header.size h.ident.class + 0 * Program.size h.ident.class)
          (table_onto hs h.ident.encoding h.ident.class rest)
  table-At fits =
      let fs = Header.fields h h.ident.encoding h.ident.class in
      let table = table_onto hs h.ident.encoding h.ident.class rest in
      subst (λ (o : ℕ). At (image_onto h hs rest) o table)
        (omega (arith, length-fields h h.ident.encoding h.ident.class))
        (At-behind _ 16 (concat fs) table (rw (concat-append fs table) (header-At fits)))

  ident-read :
      length (image_onto h hs rest) < u64_mod
      → read_exact_at (slice_reader (image_onto h hs rest)) 0 (replicate 16 0)
        ≡ ok (to_bytes h.ident)
  unfolding to_bytes
  ident-read fits = read_exact_at-slice (image_onto h hs rest) 0 16 (omega arith) fits

  -- The headers of the written image, in front of any bytes.
  read_image :
      HeaderTrip.IsTyped h
      → All ProgramTrip.IsTyped hs
      → h.phnum ≡ length hs
      → h.phoff ≡ Header.size h.ident.class
      → length (image_onto h hs rest) < u64_mod
      → from_slice (image_onto h hs rest)
        ≡ ok (record {
          ident = h.ident;
          header = HeaderTrip.narrow h.ident.class h;
          program_headers = map (ProgramTrip.narrow h.ident.class) hs;
        })
  unfolding from_slice read_from
  read_image t ts n o fits = rw (
    ident-read fits,
    parse-to_bytes h.ident,
    HeaderTrip.parse-At (image_onto h hs rest) h _ h.ident.class refl t (header-At fits),
    table,
  )
    where
      table :
          read_table
            (slice_reader (image_onto h hs rest))
            h.ident.encoding
            h.ident.class
            (HeaderTrip.narrow h.ident.class h).phoff
            0
            (HeaderTrip.narrow h.ident.class h).phnum
          ≡ ok (map (ProgramTrip.narrow h.ident.class) hs)
      table =
          ap₂
            (λ o k.
              read_table (slice_reader (image_onto h hs rest)) h.ident.encoding h.ident.class o 0 k)
            (narrow-phoff h.ident.class h o) (narrow-phnum h.ident.class h ∙ n)
          ∙ read_table-At (image_onto h hs rest) h.ident.encoding h.ident.class
              (Header.size h.ident.class) hs 0 rest ts (table-At fits)

-- A written file header with its program header table behind it is read back, whatever follows:
-- the identification as it was, and the headers as their class can hold them. The fields are in
-- the range of their types, the header counts the entries and places the table behind itself, and
-- the whole is shorter than 2^64 bytes.
pub from_slice-write_table :
    (h : ElfHeader) (hs : List ProgramHeader) (rest : Bytes)
    → HeaderTrip.IsTyped h
    → All ProgramTrip.IsTyped hs
    → h.phnum ≡ length hs
    → h.phoff ≡ Header.size h.ident.class
    → length (write_table hs (Header.write h []) h.ident.encoding h.ident.class ++ rest) < u64_mod
    → from_slice (write_table hs (Header.write h []) h.ident.encoding h.ident.class ++ rest)
      ≡ ok (record {
        ident = h.ident;
        header = HeaderTrip.narrow h.ident.class h;
        program_headers = map (ProgramTrip.narrow h.ident.class) hs;
      })
from_slice-write_table h hs rest t ts n o fits =
    let e = write-image_onto h hs rest in rw e (read_image h hs rest t ts n o (rw e at fits))
