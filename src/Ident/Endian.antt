-- ===== src/Ident/Endian.antt =====
-- `Endian` of src/ident.rs. The arrays of 2, 4 and 8 bytes are lists of that length.
use elfex.Common.{ℕ, Bytes, ◌==◌, if◌then◌else◌}
use elfex.Common.Int.{ℤ, of_pattern, to_pattern}
use elfex.Common.Outcome.{Outcome, ok, fail, invalid_data_encoding}
use elfex.Common.Words.{from_le_bytes, from_be_bytes, to_le_bytes, to_be_bytes}

pub data Endian : Type 0 where
  little big : Endian

unfoldable pub from_byte : ℕ → Outcome Endian
from_byte value =
    if value == 1
    then ok little
    else if value == 2
    then ok big
    else fail (invalid_data_encoding value)

unfoldable pub to_byte : Endian → ℕ
to_byte little = 1
to_byte big = 2

-- The body that `u16`, `u32` and `u64` share, and that of `u16_bytes`, `u32_bytes`, `u64_bytes`
-- at a width in bytes.
unfoldable pub word : Endian → Bytes → ℕ
word little bytes = from_le_bytes bytes
word big bytes = from_be_bytes bytes

unfoldable pub word_bytes : Endian → ℕ → ℕ → Bytes
word_bytes little width value = to_le_bytes width value
word_bytes big width value = to_be_bytes width value

abbrev pub u16 : Endian → Bytes → ℕ
u16 = word

abbrev pub u32 : Endian → Bytes → ℕ
u32 = word

abbrev pub u64 : Endian → Bytes → ℕ
u64 = word

abbrev pub i32_half : ℕ
i32_half = 0x80000000

abbrev pub i64_half : ℕ
i64_half = 0x8000000000000000

abbrev pub i32 : Endian → Bytes → ℤ
i32 e bytes = of_pattern i32_half (word e bytes)

abbrev pub i64 : Endian → Bytes → ℤ
i64 e bytes = of_pattern i64_half (word e bytes)

abbrev pub u16_bytes : Endian → ℕ → Bytes
u16_bytes e = word_bytes e 2

abbrev pub u32_bytes : Endian → ℕ → Bytes
u32_bytes e = word_bytes e 4

abbrev pub u64_bytes : Endian → ℕ → Bytes
u64_bytes e = word_bytes e 8

abbrev pub i64_bytes : Endian → ℤ → Bytes
i64_bytes e value = word_bytes e 8 (to_pattern i64_half value)
