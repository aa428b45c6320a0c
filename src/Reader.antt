-- ===== src/Reader.antt =====
-- src/reader.rs: positional reading. A `ReadAt` source answers a read into a buffer with the
-- buffer as it leaves it and the count or the error.
pub mod Slice
pub mod Total
pub mod Fields
pub mod Typed
use elfex.Common.{
  ℕ, zero, suc, ◌+◌, ◌-◌, Bytes, ◌++◌, Option, none, some, Bool, ltb, leb, ◌==◌, not, if◌then◌else◌,
  length, take, drop, replicate, min,
}
use elfex.Common.Outcome.{
  Outcome, ok, stuck, ◌>>=◌, ◌>>◌, reject_if, ok_or, checked_add, add_u64, buffer_too_small,
  generic, offset_out_of_bounds,
}
use elfex.Common.Int.{ℤ}
use elfex.Common.Slices.{get_from}
use elfex.Ident.Endian.{Endian, u16, u32, u64, i32, i64}

pub record ReadAt : Type 0 where
  pub read_at : ℕ → Bytes → Bytes × Outcome ℕ
  pub size : Option ℕ

-- The `while` loop of `read_exact_at`, `total` bytes into the buffer.
unfoldable pub read_exact_loop : ReadAt → ℕ → ℕ → ℕ → ℕ → Bytes → Outcome Bytes
read_exact_loop reader offset expected zero total buf = if ltb total expected then stuck else ok buf
read_exact_loop reader offset expected (suc fuel) total buf =
    let round : Outcome Bytes = (do
      current ← ok_or (checked_add offset total) (offset_out_of_bounds offset expected)
      let (filled, answer) = reader.read_at current (drop total buf)
      count ← answer
      reject_if (count == 0) (buffer_too_small expected total)
      reject_if (ltb (expected - total) count)
          (generic "ReadAt::read_at reported more bytes than the supplied buffer")
      read_exact_loop reader offset expected fuel (total + count) (take total buf ++ filled)) in
    if ltb total expected then round else ok buf

-- Each round reads a byte at least, so as many rounds as bytes are enough (`Total`).
unfoldable pub read_exact_at : ReadAt → ℕ → Bytes → Outcome Bytes
read_exact_at reader offset buf = read_exact_loop reader offset (length buf) (length buf) 0 buf

unfoldable pub read_u16_at : ReadAt → ℕ → Endian → Outcome ℕ
read_u16_at reader offset endian = do
  buf ← read_exact_at reader offset (replicate 2 0)
  ok (u16 endian buf)

unfoldable pub read_u32_at : ReadAt → ℕ → Endian → Outcome ℕ
read_u32_at reader offset endian = do
  buf ← read_exact_at reader offset (replicate 4 0)
  ok (u32 endian buf)

unfoldable pub read_u64_at : ReadAt → ℕ → Endian → Outcome ℕ
read_u64_at reader offset endian = do
  buf ← read_exact_at reader offset (replicate 8 0)
  ok (u64 endian buf)

unfoldable pub read_i32_at : ReadAt → ℕ → Endian → Outcome ℤ
read_i32_at reader offset endian = do
  buf ← read_exact_at reader offset (replicate 4 0)
  ok (i32 endian buf)

unfoldable pub read_i64_at : ReadAt → ℕ → Endian → Outcome ℤ
read_i64_at reader offset endian = do
  buf ← read_exact_at reader offset (replicate 8 0)
  ok (i64 endian buf)

-- `reader.read_u32_at(offset + k, endian)`, where the sum panics on overflow; also at 8 bytes.
unfoldable pub u32_field : ReadAt → ℕ → ℕ → Endian → Outcome ℕ
u32_field reader offset k endian = do at ← add_u64 offset k; read_u32_at reader at endian

unfoldable pub u64_field : ReadAt → ℕ → ℕ → Endian → Outcome ℕ
u64_field reader offset k endian = do at ← add_u64 offset k; read_u64_at reader at endian

-- `try_reserve_exact` refuses more than `isize::MAX` bytes; the allocator itself is taken to
-- succeed below that.
unfoldable pub read_bytes_at : ReadAt → ℕ → ℕ → Outcome Bytes
read_bytes_at reader offset len = do
  reject_if (not (leb len 0x7fffffffffffffff)) (generic "reader request is too large to allocate")
  read_exact_at reader offset (replicate len 0)

-- `SliceReader` over `data`; a `VecReader` reads as the slice of its bytes.
unfoldable pub slice_read_at : Bytes → ℕ → Bytes → Bytes × Outcome ℕ
slice_read_at bytes offset buf = elim (get_from bytes offset) [
  | none ↦ (buf, ok 0)
  | some available ↦
      let count = min (length available) (length buf) in
      (take count available ++ drop count buf, ok count)
]

abbrev pub slice_reader : Bytes → ReadAt
slice_reader bytes = record { read_at = slice_read_at bytes; size = some (length bytes) }
