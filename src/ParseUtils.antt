-- ===== src/ParseUtils.antt =====
-- src/parse_utils.rs: fixed-size arrays out of a byte slice, as lists of that length.
pub mod Fields
use elfex.Common.{
  ℕ, ◌+◌, ◌-◌, ◌≤◌, ◌<◌, ◌≡◌, ap, ◌∙◌, arith, Bytes, ◌++◌, ltb, ge→ltb, length, length-append, take,
  drop, take-append, drop-append,
}
use elfex.Common.Outcome.{
  Outcome, ok, ◌>>=◌, ◌>>◌, reject_if, buffer_too_small, add_u64, add_u64-ok, u64_mod,
}

-- The body that `array2`, `array4` and `array8` share. `offset + n` panics on overflow.
unfoldable pub array : ℕ → Bytes → ℕ → Outcome Bytes
array n bytes offset = do
  end ← add_u64 offset n
  reject_if (ltb (length bytes) end) (buffer_too_small n (length bytes - offset))
  ok (take n (drop offset bytes))

abbrev pub array2 : Bytes → ℕ → Outcome Bytes
array2 = array 2

abbrev pub array4 : Bytes → ℕ → Outcome Bytes
array4 = array 4

abbrev pub array8 : Bytes → ℕ → Outcome Bytes
array8 = array 8

pub array-ok :
    (n : ℕ) (bytes : Bytes) (offset : ℕ)
    → offset + n ≤ length bytes
    → length bytes < u64_mod
    → array n bytes offset ≡ ok (take n (drop offset bytes))
unfolding array
array-ok n bytes offset h fits =
    rw (add_u64-ok offset n (omega arith), ge→ltb (length bytes) (offset + n) h)

-- The word behind a front part.
pub array-behind :
    (n off : ℕ) (front mid rest : Bytes)
    → length front ≡ off
    → length mid ≡ n
    → length (front ++ (mid ++ rest)) < u64_mod
    → array n (front ++ (mid ++ rest)) off ≡ ok mid
array-behind n off front mid rest f m fits =
    array-ok n (front ++ (mid ++ rest)) off
      (omega (arith, length-append front (mid ++ rest), length-append mid rest)) fits
    ∙ ap ok (ap (take n) (drop-append off front (mid ++ rest) f) ∙ take-append n mid rest m)
