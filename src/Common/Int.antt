-- ===== src/Common/Int.antt =====
-- Signed integers over the native numbers, and their two's complement.
use elfex.Common.Tests.{ltb, if◌then◌else◌}
use Prim.Native.Nat.{ℕ, ◌-◌, ◌*◌, ◌%◌, ◌<◌}
use mathlib.Core.Path.{◌≡◌}
use native.Mathlib.Omega.{arith}

-- `negsuc n` is -(n + 1).
pub data ℤ : Type 0 where
  pos : ℕ → ℤ
  negsuc : ℕ → ℤ

-- The value of a bit pattern below `2 * half`, and the pattern of a value.
unfoldable pub of_pattern : ℕ → ℕ → ℤ
of_pattern half w = if ltb w half then pos w else negsuc (2 * half - w - 1)

unfoldable pub to_pattern : ℕ → ℤ → ℕ
to_pattern half (pos n) = n % (2 * half)
to_pattern half (negsuc n) = 2 * half - 1 - n % (2 * half)

-- `i64` and `i32`, by half of their range.
abbrev pub FitsIn : ℕ → ℤ → Type 0
FitsIn half (pos n) = n < half
FitsIn half (negsuc n) = n < half

pub of_pattern-to_pattern_64 :
    (z : ℤ)
    → FitsIn 0x8000000000000000 z
    → of_pattern 0x8000000000000000 (to_pattern 0x8000000000000000 z) ≡ z
unfolding of_pattern to_pattern
of_pattern-to_pattern_64 (pos n) h = ground arith
of_pattern-to_pattern_64 (negsuc n) h = ground arith

pub of_pattern-to_pattern_32 :
    (z : ℤ) → FitsIn 0x80000000 z → of_pattern 0x80000000 (to_pattern 0x80000000 z) ≡ z
unfolding of_pattern to_pattern
of_pattern-to_pattern_32 (pos n) h = ground arith
of_pattern-to_pattern_32 (negsuc n) h = ground arith

pub to_pattern-lt_64 : (z : ℤ) → to_pattern 0x8000000000000000 z < 0x10000000000000000
unfolding to_pattern
to_pattern-lt_64 (pos n) = omega arith
to_pattern-lt_64 (negsuc n) = omega arith

pub to_pattern-lt_32 : (z : ℤ) → to_pattern 0x80000000 z < 0x100000000
unfolding to_pattern
to_pattern-lt_32 (pos n) = omega arith
to_pattern-lt_32 (negsuc n) = omega arith
