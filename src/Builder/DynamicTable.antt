-- ===== src/Builder/DynamicTable.antt =====
-- The dynamic table and its strings, as the builder makes them, parsed back.
use elfex.Builder.Pieces.{name_strings, name_offsets, dynamic_bytes}
use elfex.Common.{
  ℕ, ◌*◌, ◌%◌, ◌<◌, ◌≡◌, refl, sym, ap, ◌∙◌, arith, Bytes, List, [], ◌∷◌, ◌++◌, append_assoc,
  append-nil, eq→==, All, length, length-append, concat,
}
use elfex.Common.Outcome.{ok}
use elfex.Common.Pairwise.{All-map}
use elfex.Common.Rows.{length-concat, chunks_exact-concat}
use elfex.Dynamic.{DynamicEntry, entry_size, parse, needed}
use elfex.Ident.ElfClass.{ElfClass, elf32, elf64}
use elfex.Ident.Endian.{Endian}
use elfex.StringTable
use elfex.StringTable.Names.{IsName, get-name}
use elfex.Builder.DynamicRows.{
  word_limit, table_rows, table_entries, table_rows-AreRows, dynamic_bytes-rows, parse-table_rows,
}

abbrev joined : List Bytes → Bytes
joined [] = []
joined (name ∷ names) = name ++ (0 ∷ joined names)

name_strings-joined :
    (front : Bytes) (names : List Bytes) → name_strings front names ≡ front ++ joined names
unfolding name_strings
name_strings-joined front [] = sym (append-nil front)
name_strings-joined front (name ∷ names) =
    name_strings-joined (front ++ (name ++ (0 ∷ []))) names
    ∙ append_assoc front (name ++ (0 ∷ [])) (joined names)
    ∙ ap (λ (r : Bytes). front ++ r) (append_assoc name (0 ∷ []) (joined names))

needed-table :
    (front : Bytes) (names : List Bytes) (size : ℕ)
    → All IsName names
    → needed (table_entries (name_offsets front names) size) (name_strings front names) ≡ names
unfolding needed name_offsets name_strings
needed-table front [] size h = refl
needed-table front (name ∷ names) size h =
    let front' = front ++ (name ++ (0 ∷ [])) in
    let found =
      ap (λ (s : Bytes). StringTable.get s (length front))
        (name_strings-joined front' names
          ∙ append_assoc front (name ++ (0 ∷ [])) (joined names)
          ∙ ap (λ (r : Bytes). front ++ r) (append_assoc name (0 ∷ []) (joined names)))
      ∙ get-name front name (joined names) h.0 in
    rw (found, needed-table front' names size h.1)

name_offsets-lt :
    (front : Bytes) (names : List Bytes)
    → All (λ o. o < length (name_strings front names)) (name_offsets front names)
unfolding name_offsets name_strings
name_offsets-lt front [] = tt
name_offsets-lt front (name ∷ names) =
    let front' = front ++ (name ++ (0 ∷ [])) in
    (
      omega (
        arith,
        ap length (name_strings-joined front' names),
        length-append front' (joined names),
        length-append front (name ++ (0 ∷ [])),
        length-append name (0 ∷ []),
      ),
      name_offsets-lt front' names,
    )

entry_size-facts :
    (class : ElfClass) (k : ℕ)
    → (0 < entry_size class)
      × ((k * entry_size class) % entry_size class ≡ 0)
      × (0 < word_limit class)
unfolding entry_size
entry_size-facts elf32 k = (omega arith, omega arith, omega arith)
entry_size-facts elf64 k = (omega arith, omega arith, omega arith)

-- The dynamic table and the string table that the builder makes of the names of needed libraries
-- are parsed without error, in either class and byte order, and the parsed table finds the names
-- again in the strings, all of them and in order. The names are UTF-8 and hold no zero byte, and a
-- word of the class holds the size of the strings.
pub needed-dynamic_bytes :
    (names : List Bytes) (e : Endian) (class : ElfClass)
    → All IsName names
    → length (name_strings (0 ∷ []) names) < word_limit class
    → (entries : List DynamicEntry) × (parse
          (dynamic_bytes
            (name_offsets (0 ∷ []) names)
            (length (name_strings (0 ∷ []) names))
            e
            class)
          e
          class
        ≡ ok entries)
      × (needed entries (name_strings (0 ∷ []) names) ≡ names)
unfolding parse
needed-dynamic_bytes names e class h small =
    let os = name_offsets (0 ∷ []) names in
    let size = length (name_strings (0 ∷ []) names) in
    let n = entry_size class in
    let table = table_rows os size e class in
    let same = table_rows-AreRows os size e class in
    let facts = entry_size-facts class (length table) in
    let whole = ap (λ (k : ℕ). k % n) (length-concat n table same) ∙ facts.1 in
    let below =
      All-map {P = λ o. o < size} {Q = λ o. o < word_limit class} (λ o k. omega (arith, k, small))
        os (name_offsets-lt (0 ∷ []) names) in
    (
      table_entries os size,
      rw (
        dynamic_bytes-rows os size e class,
        eq→== (length (concat table) % n) 0 whole,
        chunks_exact-concat n table facts.0 same,
        parse-table_rows os size e class below small facts.2,
      ),
      needed-table (0 ∷ []) names size h,
    )
