-- ===== src/Ident/Words.antt =====
-- Encoding and decoding of words in either byte order.
use elfex.Common.{ℕ, ◌^◌, ◌<◌, ◌≡◌, Bytes, IsByte, All, length}
use elfex.Common.Int.{ℤ, FitsIn, to_pattern, of_pattern-to_pattern_64, to_pattern-lt_64}
use elfex.Common.Words.{
  length-to_le_bytes, length-to_be_bytes, to_le_bytes-IsByte, to_be_bytes-IsByte,
  from_le_bytes-to_le_bytes, from_be_bytes-to_be_bytes, to_le_bytes-from_le_bytes,
  to_be_bytes-from_be_bytes, from_le_bytes-lt, from_be_bytes-lt,
}
use elfex.Ident.Endian.{Endian, little, big, word, word_bytes, i64, i64_bytes, i64_half}

pub length-word_bytes : (e : Endian) (n v : ℕ) → length (word_bytes e n v) ≡ n
unfolding word_bytes
length-word_bytes little n v = length-to_le_bytes n v
length-word_bytes big n v = length-to_be_bytes n v

pub word_bytes-IsByte : (e : Endian) (n v : ℕ) → All IsByte (word_bytes e n v)
unfolding word_bytes
word_bytes-IsByte little n v = to_le_bytes-IsByte n v
word_bytes-IsByte big n v = to_be_bytes-IsByte n v

-- Decoding undoes encoding, for every value that the width holds.
pub word-word_bytes : (e : Endian) (n v : ℕ) → v < 256 ^ n → word e (word_bytes e n v) ≡ v
unfolding word word_bytes
word-word_bytes little n v h = from_le_bytes-to_le_bytes n v h
word-word_bytes big n v h = from_be_bytes-to_be_bytes n v h

-- Encoding undoes decoding, for every string of bytes.
pub word_bytes-word :
    (e : Endian) (bs : Bytes) → All IsByte bs → word_bytes e (length bs) (word e bs) ≡ bs
unfolding word word_bytes
word_bytes-word little bs h = to_le_bytes-from_le_bytes bs h
word_bytes-word big bs h = to_be_bytes-from_be_bytes bs h

-- A decoded word fits its width.
pub word-lt : (e : Endian) (bs : Bytes) → All IsByte bs → word e bs < 256 ^ length bs
unfolding word
word-lt little bs h = from_le_bytes-lt bs h
word-lt big bs h = from_be_bytes-lt bs h

-- Decoding undoes encoding, for every `i64`, by two's complement.
pub i64-i64_bytes : (e : Endian) (z : ℤ) → FitsIn i64_half z → i64 e (i64_bytes e z) ≡ z
i64-i64_bytes e z h =
    rw (word-word_bytes e 8 (to_pattern i64_half z) (to_pattern-lt_64 z))
      (of_pattern-to_pattern_64 z h)
