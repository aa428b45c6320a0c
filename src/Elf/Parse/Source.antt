-- ===== src/Elf/Parse/Source.antt =====
-- src/elf/parse.rs: the source behind an image, its size limits and its reads past missing bytes.
use elfex.Common.{
  ℕ, zero, suc, ◌-◌, Bytes, ◌++◌, Option, none, some, min, ltb, ◌==◌, if◌then◌else◌, length, take,
  drop, replicate,
}
use elfex.Common.Outcome.{
  Outcome, ok, err, panic, stuck, ◌>>=◌, ◌>>◌, reject_if, add_u64, checked_add, generic,
}
use elfex.Reader.{ReadAt}

-- `MAX_ALLOC`
abbrev pub max_alloc : ℕ
max_alloc = 0x10000000

abbrev size_cap : Option ℕ → ℕ
size_cap none = max_alloc
size_cap (some size) = min size max_alloc

unfoldable pub checked_len : ℕ → Option ℕ → Outcome ℕ
checked_len len source_size = do
  reject_if (ltb (size_cap source_size) len)
      (generic "ELF structure size exceeds the source or the allocation limit")
  ok len

unfoldable pub checked_alloc : ℕ → Option ℕ → Outcome Bytes
checked_alloc len source_size = do checked ← checked_len len source_size; ok (replicate checked 0)

-- The loop of `read_lenient`: an error of the source ends it, and leaves the buffer as the source
-- left it.
unfoldable pub lenient_loop : ReadAt → ℕ → ℕ → ℕ → Bytes → Outcome Bytes
lenient_loop reader offset zero filled buffer =
    if ltb filled (length buffer) then stuck else ok buffer
lenient_loop reader offset (suc fuel) filled buffer =
    let round : Outcome Bytes = (do
      current ← add_u64 offset filled
      let (got, answer) = reader.read_at current (drop filled buffer)
      let buffer' = take filled buffer ++ got
      elim answer [
        | ok count ↦
            let next =
              add_u64 filled count >>= λ filled'. lenient_loop reader offset fuel filled' buffer' in
            if count == 0 then ok buffer' else next
        | err e ↦ ok buffer'
        | panic ↦ panic
        | stuck ↦ stuck
      ]) in
    if ltb filled (length buffer) then round else ok buffer

-- Each round but the last fills a byte at least.
unfoldable pub read_lenient : ReadAt → ℕ → Bytes → Outcome Bytes
read_lenient reader offset buffer = lenient_loop reader offset (length buffer) 0 buffer

-- `OffsetReader`
unfoldable pub offset_read_at : ReadAt → ℕ → ℕ → Bytes → Bytes × Outcome ℕ
offset_read_at inner base offset buf = elim (checked_add base offset) [
  | none ↦ (buf, ok 0)
  | some shifted ↦ inner.read_at shifted buf
]

abbrev pub offset_reader : ReadAt → ℕ → ReadAt
offset_reader inner base = record {
  read_at = offset_read_at inner base;
  size = elim inner.size [ none ↦ none | some size ↦ some (size - base) ];
}
