-- ===== src/Builder/DynamicRows.antt =====
-- The rows of the dynamic table that the builder makes, and the entries that they are parsed to.
use elfex.Builder.Pieces.{entry_bytes, push_needed, dynamic_bytes}
use elfex.Common.{
  ℕ, ◌<◌, ◌≡◌, refl, sym, ap, ◌∙◌, arith, Bytes, List, [], ◌∷◌, ◌++◌, append_assoc, append-nil, All,
  length, length-append, concat,
}
use elfex.Common.Outcome.{ok, u64_mod}
use elfex.Common.Rows.{AreRows}
use elfex.Common.Words.{low32-small}
use elfex.Dynamic.{DynamicEntry, entry_size, parse_entry, parse_entries}
use elfex.Dynamic.DynTag
use elfex.Ident.ElfClass.{ElfClass, elf32, elf64}
use elfex.Ident.Endian.{Endian, word_bytes}
use elfex.Ident.Words.{length-word_bytes, word-word_bytes}
use elfex.ParseUtils.{array, array-behind}

-- The numbers that a word of the class holds.
abbrev pub word_limit : ElfClass → ℕ
word_limit elf32 = 0x100000000
word_limit elf64 = u64_mod

length-entry_bytes :
    (e : Endian) (class : ElfClass) (tag value : ℕ)
    → length (entry_bytes e class tag value) ≡ entry_size class
unfolding entry_bytes entry_size
length-entry_bytes e elf32 tag value = simp (length-append, length-word_bytes)
length-entry_bytes e elf64 tag value = simp (length-append, length-word_bytes)

-- Two words of one width.
words-behind :
    (n : ℕ) (a b : Bytes)
    → length a ≡ n
    → length b ≡ n
    → n < 16
    → (array n (a ++ b) 0 ≡ ok a) × (array n (a ++ b) n ≡ ok b)
words-behind n a b ha hb small =
    let size = length-append a b in
    (
      array-behind n 0 [] a b refl ha (omega (arith, size)),
      ap (λ (r : Bytes). array n (a ++ r) n) (sym (append-nil b))
          ∙ array-behind n n a b [] ha hb
              (omega (arith, ap length (ap (λ (r : Bytes). a ++ r) (append-nil b)), size)),
    )

parse-entry_bytes :
    (e : Endian) (class : ElfClass) (tag value : ℕ)
    → tag < 0x100000000
    → value < word_limit class
    → parse_entry (entry_bytes e class tag value) e class ≡ ok (record { tag = tag; value = value })
unfolding entry_bytes parse_entry
parse-entry_bytes e elf64 tag value t v =
    let p =
      words-behind 8 (word_bytes e 8 tag) (word_bytes e 8 value) (length-word_bytes e 8 tag)
        (length-word_bytes e 8 value) (omega arith) in
    rw (p.0, p.1, word-word_bytes e 8 tag (omega arith), word-word_bytes e 8 value (omega arith))
parse-entry_bytes e elf32 tag value t v =
    let p =
      words-behind 4 (word_bytes e 4 tag) (word_bytes e 4 value) (length-word_bytes e 4 tag)
        (length-word_bytes e 4 value) (omega arith) in
    rw (
      low32-small tag t,
      low32-small value v,
      p.0,
      p.1,
      word-word_bytes e 4 tag (omega arith),
      word-word_bytes e 4 value (omega arith),
    )

-- The rows of the table: a name each, and the three that close it.
abbrev closing : ℕ → Endian → ElfClass → List Bytes
closing size e class =
    entry_bytes e class DynTag.strtab 0
    ∷ entry_bytes e class DynTag.strsz size
    ∷ entry_bytes e class DynTag.null 0
    ∷ []

abbrev pub table_rows : List ℕ → ℕ → Endian → ElfClass → List Bytes
table_rows [] size e class = closing size e class
table_rows (o ∷ os) size e class = entry_bytes e class DynTag.needed o ∷ table_rows os size e class

abbrev pub table_entries : List ℕ → ℕ → List DynamicEntry
table_entries [] size =
    record { tag = DynTag.strtab; value = 0 } ∷ record { tag = DynTag.strsz; value = size } ∷ []
table_entries (o ∷ os) size = record { tag = DynTag.needed; value = o } ∷ table_entries os size

pub table_rows-AreRows :
    (os : List ℕ) (size : ℕ) (e : Endian) (class : ElfClass)
    → AreRows (entry_size class) (table_rows os size e class)
table_rows-AreRows [] size e class = (
  length-entry_bytes e class DynTag.strtab 0,
  (length-entry_bytes e class DynTag.strsz size, (length-entry_bytes e class DynTag.null 0, tt)),
)
table_rows-AreRows (o ∷ os) size e class =
    (length-entry_bytes e class DynTag.needed o, table_rows-AreRows os size e class)

push_needed-rows :
    (e : Endian) (class : ElfClass) (out : Bytes) (os : List ℕ) (size : ℕ)
    → push_needed e class out os ++ concat (closing size e class)
      ≡ out ++ concat (table_rows os size e class)
unfolding push_needed
push_needed-rows e class out [] size = refl
push_needed-rows e class out (o ∷ os) size =
    push_needed-rows e class (out ++ entry_bytes e class DynTag.needed o) os size
    ∙ append_assoc out (entry_bytes e class DynTag.needed o) (concat (table_rows os size e class))

pub dynamic_bytes-rows :
    (os : List ℕ) (size : ℕ) (e : Endian) (class : ElfClass)
    → dynamic_bytes os size e class ≡ concat (table_rows os size e class)
unfolding dynamic_bytes
dynamic_bytes-rows os size e class =
    ap
      (λ (last : Bytes).
        push_needed e class [] os
        ++ (entry_bytes e class DynTag.strtab 0 ++ (entry_bytes e class DynTag.strsz size ++ last)))
      (sym (append-nil (entry_bytes e class DynTag.null 0)))
    ∙ push_needed-rows e class [] os size

pub parse-table_rows :
    (os : List ℕ) (size : ℕ) (e : Endian) (class : ElfClass)
    → All (λ o. o < word_limit class) os
    → size < word_limit class
    → 0 < word_limit class
    → parse_entries e class (table_rows os size e class) ≡ ok (table_entries os size)
unfolding parse_entries
parse-table_rows [] size e class f h z = rw (
  parse-entry_bytes e class DynTag.strtab 0 (omega arith) z,
  parse-entry_bytes e class DynTag.strsz size (omega arith) h,
  parse-entry_bytes e class DynTag.null 0 (omega arith) z,
)
parse-table_rows (o ∷ os) size e class f h z = rw (
  parse-entry_bytes e class DynTag.needed o (omega arith) f.0,
  parse-table_rows os size e class f.1 h z,
)
