-- ===== src/Builder/Rela.antt =====
-- The relocation entries that the builder writes, parsed back.
use elfex.Builder.Serialize.{i32_addend, addend_or_zero, rela_parts, rela_loop, serialize_rela}
use elfex.Common.{
  ℕ, ◌+◌, ◌*◌, ◌%◌, ◌<◌, ◌≡◌, refl, sym, ap, ap₂, ◌∙◌, subst, arith, Bytes, List, [], ◌∷◌, ◌++◌,
  append_assoc, append-nil, Option, none, some, true, lt→ltb, eq→==, All, map, length,
  length-append, concat,
}
use elfex.Common.Int.{
  ℤ, pos, negsuc, FitsIn, to_pattern, of_pattern-to_pattern_32, to_pattern-lt_32,
}
use elfex.Common.Outcome.{ok, u64_mod}
use elfex.Common.Rows.{AreRows, length-concat, chunks_exact-concat}
use elfex.Common.Words.{low32}
use elfex.Ident.ElfClass.{ElfClass, elf32, elf64}
use elfex.Ident.Endian.{Endian, i32_half, i64_half, u32_bytes, u64_bytes, i64_bytes}
use elfex.Ident.Words.{length-word_bytes, word-word_bytes, i64-i64_bytes}
use elfex.ParseUtils.{array, array-behind}
use elfex.Reloc.{
  RelocationEntry, entry_size, entry_words, entry_addend, split_symbol, split_type, parse_entry,
  parse_entries, parse,
}

-- The fields of an entry are in the range that the class has for them.
pub record FitsRela64 (entry : RelocationEntry) : Type 0 where
  pub offset_lt : entry.offset < u64_mod
  pub symbol_lt : entry.symbol < 0x100000000
  pub type_lt : entry.r_type < 0x100000000
  pub addend_fits : FitsIn i64_half (addend_or_zero entry.addend)

pub record FitsRela32 (entry : RelocationEntry) : Type 0 where
  pub offset_lt : entry.offset < 0x100000000
  pub symbol_lt : entry.symbol < 0x1000000
  pub type_lt : entry.r_type < 0x100
  pub addend_fits : FitsIn i32_half (addend_or_zero entry.addend)

abbrev pub FitsRela : ElfClass → RelocationEntry → Type 0
FitsRela elf64 entry = FitsRela64 entry
FitsRela elf32 entry = FitsRela32 entry

-- An entry as it is read back: always with an addend.
abbrev pub with_addend : RelocationEntry → RelocationEntry
with_addend entry = record entry { addend = some (addend_or_zero entry.addend) }

-- Three words of one width, taken apart.
module _ (n : ℕ) (a b c : Bytes) (ha : length a ≡ n) (hb : length b ≡ n) (hc : length c ≡ n)
    (small : n < 16) where
  abbrev row : Bytes
  row = concat (a ∷ b ∷ c ∷ [])

  length-row : length row ≡ 3 * n
  length-row =
      omega (arith, length-append a (b ++ (c ++ [])), length-append b (c ++ []), length-append c [])

  first_word : array n row 0 ≡ ok a
  first_word = array-behind n 0 [] a (b ++ (c ++ [])) refl ha (omega (arith, length-row))

  second_word : array n row n ≡ ok b
  second_word = array-behind n n a b (c ++ []) ha hb (omega (arith, length-row))

  third_word : array n row (2 * n) ≡ ok c
  third_word =
      let shape = append_assoc a b (c ++ []) in
      ap (λ (r : Bytes). array n r (2 * n)) (sym shape)
      ∙ array-behind n (2 * n) (a ++ b) c [] (omega (arith, length-append a b)) hc
          (omega (arith, ap length shape, length-row))

abbrev row_of : RelocationEntry → Endian → ElfClass → Bytes
row_of entry e class = concat (rela_parts entry e class)

length-row_of :
    (entry : RelocationEntry) (e : Endian) (class : ElfClass)
    → length (row_of entry e class) ≡ entry_size class true
unfolding rela_parts entry_size
length-row_of entry e elf64 = simp (length-append, length-word_bytes)
length-row_of entry e elf32 = simp (length-append, length-word_bytes)

i32_addend-fits :
    (o : Option ℤ) → FitsIn i32_half (addend_or_zero o) → i32_addend o ≡ addend_or_zero o
unfolding i32_addend addend_or_zero
i32_addend-fits none h = refl
i32_addend-fits (some (pos n)) h = rw (lt→ltb n i32_half h)
i32_addend-fits (some (negsuc n)) h = rw (lt→ltb n i32_half h)

parse-row_64 :
    (entry : RelocationEntry) (e : Endian)
    → FitsRela64 entry
    → parse_entry (row_of entry e elf64) true e elf64 ≡ ok (with_addend entry)
unfolding rela_parts parse_entry entry_words entry_addend split_symbol split_type low32
parse-row_64 entry e f =
    let info = entry.symbol * 0x100000000 + entry.r_type in
    let a = u64_bytes e entry.offset in
    let b = u64_bytes e info in
    let c = i64_bytes e (addend_or_zero entry.addend) in
    let ha = length-word_bytes e 8 entry.offset in
    let hb = length-word_bytes e 8 info in
    let hc : length c ≡ 8 = length-word_bytes e 8 _ in
    rw
      (
        first_word 8 a b c ha hb hc (omega arith),
        second_word 8 a b c ha hb hc (omega arith),
        third_word 8 a b c ha hb hc (omega arith),
        word-word_bytes e 8 entry.offset (omega (arith, f.offset_lt)),
        word-word_bytes e 8 info (omega (arith, f.symbol_lt, f.type_lt)),
        i64-i64_bytes e (addend_or_zero entry.addend) f.addend_fits,
      )
      (ap₂
        (λ (s t : ℕ). ok (record {
          offset = entry.offset;
          symbol = s;
          r_type = t;
          addend = some (addend_or_zero entry.addend);
        }))
        (omega (arith, f.symbol_lt, f.type_lt)) (omega (arith, f.symbol_lt, f.type_lt)))

parse-row_32 :
    (entry : RelocationEntry) (e : Endian)
    → FitsRela32 entry
    → parse_entry (row_of entry e elf32) true e elf32 ≡ ok (with_addend entry)
unfolding rela_parts parse_entry entry_words entry_addend split_symbol split_type low32
parse-row_32 entry e f =
    let info = (entry.symbol * 0x100) % 0x100000000 + entry.r_type % 0x100 in
    let a = u32_bytes e (entry.offset % 0x100000000) in
    let b = u32_bytes e info in
    let z = i32_addend entry.addend in
    let c = u32_bytes e (to_pattern i32_half z) in
    let same = i32_addend-fits entry.addend f.addend_fits in
    let ha = length-word_bytes e 4 (entry.offset % 0x100000000) in
    let hb = length-word_bytes e 4 info in
    let hc : length c ≡ 4 = length-word_bytes e 4 _ in
    rw
      (
        first_word 4 a b c ha hb hc (omega arith),
        second_word 4 a b c ha hb hc (omega arith),
        third_word 4 a b c ha hb hc (omega arith),
        word-word_bytes e 4 (entry.offset % 0x100000000) (omega arith),
        word-word_bytes e 4 info (omega (arith, f.symbol_lt)),
        word-word_bytes e 4 (to_pattern i32_half z) (to_pattern-lt_32 z),
        of_pattern-to_pattern_32 z (subst (FitsIn i32_half) (sym same) f.addend_fits),
        same,
      )
      (ap₃ (omega (arith, f.offset_lt)) (omega (arith, f.symbol_lt, f.type_lt))
        (omega (arith, f.symbol_lt, f.type_lt)))
  where
    ap₃ :
        {o s t : ℕ}
        → o ≡ entry.offset
        → s ≡ entry.symbol
        → t ≡ entry.r_type
        → ok (record {
          offset = o;
          symbol = s;
          r_type = t;
          addend = some (addend_or_zero entry.addend);
        })
          ≡ ok (with_addend entry)
    ap₃ p q r = λ i. ok (record {
      offset = p i;
      symbol = q i;
      r_type = r i;
      addend = some (addend_or_zero entry.addend);
    })

parse-row_of :
    (entry : RelocationEntry) (e : Endian) (class : ElfClass)
    → FitsRela class entry
    → parse_entry (row_of entry e class) true e class ≡ ok (with_addend entry)
parse-row_of entry e elf64 f = parse-row_64 entry e f
parse-row_of entry e elf32 f = parse-row_32 entry e f

-- The rows of the table.
abbrev rows : List RelocationEntry → Endian → ElfClass → List Bytes
rows entries e class = map (λ (entry : RelocationEntry). row_of entry e class) entries

rela_loop-rows :
    (out : Bytes) (entries : List RelocationEntry) (e : Endian) (class : ElfClass)
    → rela_loop out entries e class ≡ out ++ concat (rows entries e class)
unfolding rela_loop
rela_loop-rows out [] e class = sym (append-nil out)
rela_loop-rows out (entry ∷ entries) e class =
    rela_loop-rows (out ++ row_of entry e class) entries e class
    ∙ append_assoc out (row_of entry e class) (concat (rows entries e class))

rows-AreRows :
    (entries : List RelocationEntry) (e : Endian) (class : ElfClass)
    → AreRows (entry_size class true) (rows entries e class)
rows-AreRows [] e class = tt
rows-AreRows (entry ∷ entries) e class = (length-row_of entry e class, rows-AreRows entries e class)

parse_entries-rows :
    (entries : List RelocationEntry) (e : Endian) (class : ElfClass)
    → All (FitsRela class) entries
    → parse_entries true e class (rows entries e class) ≡ ok (map with_addend entries)
unfolding parse_entries
parse_entries-rows [] e class f = refl
parse_entries-rows (entry ∷ entries) e class f =
    rw (parse-row_of entry e class f.0, parse_entries-rows entries e class f.1)

entry_size-pos : (class : ElfClass) → 0 < entry_size class true
unfolding entry_size
entry_size-pos elf32 = omega arith
entry_size-pos elf64 = omega arith

whole_rows : (k : ℕ) (class : ElfClass) → (k * entry_size class true) % entry_size class true ≡ 0
unfolding entry_size
whole_rows k elf32 = omega arith
whole_rows k elf64 = omega arith

-- The relocation table that the builder writes is parsed back, in either class and byte order: all
-- entries in order, each with an explicit addend, which is zero where the entry had none. The
-- offset, the symbol, the type and the addend of each entry are in the range that the class has
-- for them.
pub parse-serialize_rela :
    (entries : List RelocationEntry) (e : Endian) (class : ElfClass)
    → All (FitsRela class) entries
    → parse (serialize_rela entries e class) true e class
      ≡ ok (record { entries = map with_addend entries; is_rela = true })
unfolding serialize_rela parse
parse-serialize_rela entries e class f =
    let n = entry_size class true in
    let table = rows entries e class in
    let same = rows-AreRows entries e class in
    let whole =
      ap (λ (k : ℕ). k % n) (length-concat n table same) ∙ whole_rows (length table) class in
    rw (
      rela_loop-rows [] entries e class,
      eq→== (length (concat table) % n) 0 whole,
      chunks_exact-concat n table (entry_size-pos class) same,
      parse_entries-rows entries e class f,
    )
