-- ===== src/Headers/Table.antt =====
-- The program header table: what the loop reads from a slice that holds the written entries.
use elfex.Common.{
  ℕ, ◌+◌, ◌*◌, ◌≡◌, refl, ap, ◌∙◌, arith, Bytes, List, [], ◌∷◌, ◌++◌, append_assoc, All, map,
  length, length-append, concat, concat_onto, concat-append, subst,
}
use elfex.Common.Outcome.{ok, checked_add-some}
use elfex.Headers.{read_table}
use elfex.Ident.ElfClass.{ElfClass, elf32, elf64}
use elfex.Ident.Endian.{Endian}
use elfex.Ident.Words.{length-word_bytes}
use elfex.Program.{ProgramHeader, fields, write, size}
use elfex.Program.RoundTrip.{IsTyped, narrow, parse-At}
use elfex.Reader.{slice_reader}
use elfex.Reader.Fields.{At, At-behind}

-- `for phdr in &phdrs { phdr.write(&mut table, endian, class) }`
unfoldable pub write_table : List ProgramHeader → Bytes → Endian → ElfClass → Bytes
write_table [] out e class = out
write_table (h ∷ hs) out e class = write_table hs (write h out e class) e class

-- The written entries in front of more bytes.
abbrev pub table_onto : List ProgramHeader → Endian → ElfClass → Bytes → Bytes
table_onto [] e class rest = rest
table_onto (h ∷ hs) e class rest = concat_onto (fields h e class) (table_onto hs e class rest)

pub write_table-append :
    (hs : List ProgramHeader) (out : Bytes) (e : Endian) (class : ElfClass) (rest : Bytes)
    → write_table hs out e class ++ rest ≡ out ++ table_onto hs e class rest
unfolding write_table write
write_table-append [] out e class rest = refl
write_table-append (h ∷ hs) out e class rest =
    write_table-append hs (write h out e class) e class rest
    ∙ append_assoc out (concat (fields h e class)) (table_onto hs e class rest)
    ∙ ap (◌++◌ out) (concat-append (fields h e class) (table_onto hs e class rest))

pub length-fields :
    (h : ProgramHeader) (e : Endian) (class : ElfClass)
    → length (concat (fields h e class)) ≡ size class
unfolding fields size
length-fields h e elf32 = simp (length-append, length-word_bytes)
length-fields h e elf64 = simp (length-append, length-word_bytes)

-- Behind one entry.
entry_behind :
    (bytes : Bytes) (off : ℕ) (h : ProgramHeader) (e : Endian) (class : ElfClass) (rest : Bytes)
    → At bytes off (concat_onto (fields h e class) rest)
    → At bytes (off + size class) rest
entry_behind bytes off h e class rest a = rw (length-fields h e class) at (
    At-behind bytes off (concat (fields h e class)) rest
      (rw (concat-append (fields h e class) rest) a))

module _ (bytes : Bytes) (e : Endian) (class : ElfClass) (phoff : ℕ) where
  pub read_table-At :
      (hs : List ProgramHeader) (index : ℕ) (rest : Bytes)
      → All IsTyped hs
      → At bytes (phoff + index * size class) (table_onto hs e class rest)
      → read_table (slice_reader bytes) e class phoff index (length hs) ≡ ok (map (narrow class) hs)
  unfolding read_table
  read_table-At [] index rest t a = refl
  read_table-At (h ∷ hs) index rest t a =
      let next = entry_behind bytes _ h e class (table_onto hs e class rest) a in
      rw (
        checked_add-some phoff (index * size class) (omega (arith, a.within, a.fits)),
        parse-At bytes (phoff + index * size class) e class h (table_onto hs e class rest) t.0 a,
        read_table-At hs (index + 1) rest t.1
            (subst (λ (o : ℕ). At bytes o (table_onto hs e class rest)) (omega arith) next),
      )
