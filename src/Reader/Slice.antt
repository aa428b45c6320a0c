-- ===== src/Reader/Slice.antt =====
-- What the loop of `read_exact_at` does on a slice: it returns the bytes asked for, or says how
-- many there were.
use elfex.Common.{
  ℕ, zero, suc, ◌+◌, ◌-◌, ◌≤◌, ◌<◌, ◌≡◌, refl, ap, ◌∙◌, arith, Bytes, ◌++◌, append-nil, lt→ltb,
  ge→ltb, length, take, drop, replicate, min, inl, inr, le-cases, drop-all, length-drop,
  length-replicate,
}
use elfex.Common.Outcome.{Outcome, ok, fail, u64_mod, checked_add-some, buffer_too_small}
use elfex.Common.Slices.{get_from-some, get_from-none}
use native.Mathlib.Nat.{add-zero}
use elfex.Reader.{ReadAt, read_exact_loop, read_exact_at, slice_read_at, slice_reader}

-- The answer of a read that has `n` of the bytes `rest` to give.
abbrev pub supply : Bytes → Bytes → ℕ → Bytes × Outcome ℕ
supply rest buf n = (take n rest ++ drop n buf, ok n)

slice_read_at-supply :
    (bytes : Bytes) (offset : ℕ) (buf : Bytes)
    → offset ≤ length bytes
    → slice_read_at bytes offset buf
      ≡ supply (drop offset bytes) buf (min (length bytes - offset) (length buf))
unfolding slice_read_at
slice_read_at-supply bytes offset buf h =
    rw (get_from-some bytes offset h, slice_read_at)
      (ap (λ (n : ℕ). supply (drop offset bytes) buf (min n (length buf)))
        (length-drop offset bytes))

-- One read inside the slice fills the buffer.
pub slice_read_at-inside :
    (bytes : Bytes) (offset : ℕ) (buf : Bytes)
    → offset + length buf ≤ length bytes
    → slice_read_at bytes offset buf ≡ (take (length buf) (drop offset bytes), ok (length buf))
slice_read_at-inside bytes offset buf h =
    slice_read_at-supply bytes offset buf (omega arith)
    ∙ ap (supply (drop offset bytes) buf) {y = length buf} (omega arith)
    ∙ rw (drop-all (length buf) buf (omega arith), append-nil)

-- One read at the end of the slice or behind it supplies nothing.
pub slice_read_at-outside :
    (bytes : Bytes) (offset : ℕ) (buf : Bytes)
    → length bytes ≤ offset
    → slice_read_at bytes offset buf ≡ (buf, ok 0)
slice_read_at-outside bytes offset buf h = elim (le-cases offset (length bytes)) [
  | inl le ↦
      slice_read_at-supply bytes offset buf le
      ∙ ap (supply (drop offset bytes) buf) {y = 0} (omega arith)
  | inr lt ↦ unfold slice_read_at in rw (get_from-none bytes offset lt, slice_read_at)
]

-- One read across the end supplies what is left.
pub slice_read_at-across :
    (bytes : Bytes) (offset : ℕ) (buf : Bytes)
    → offset ≤ length bytes
    → length bytes < offset + length buf
    → slice_read_at bytes offset buf ≡ supply (drop offset bytes) buf (length bytes - offset)
slice_read_at-across bytes offset buf h k =
    slice_read_at-supply bytes offset buf h ∙ ap (supply (drop offset bytes) buf) (omega arith)

-- A round of the loop, by what the read answers.
module _ (reader : ReadAt) (offset expected fuel total count : ℕ) (buf filled : Bytes) where
  round_ok :
      total < expected
      → offset + total < u64_mod
      → reader.read_at (offset + total) (drop total buf) ≡ (filled, ok count)
      → 0 < count
      → total + count ≤ expected
      → read_exact_loop reader offset expected (suc fuel) total buf
        ≡ read_exact_loop reader offset expected fuel (total + count) (take total buf ++ filled)
  unfolding read_exact_loop
  round_ok lt fits answer pos within =
      rw (lt→ltb total expected lt, checked_add-some offset total fits, answer) (ground arith)

  round_empty :
      total < expected
      → offset + total < u64_mod
      → reader.read_at (offset + total) (drop total buf) ≡ (filled, ok 0)
      → read_exact_loop reader offset expected (suc fuel) total buf
        ≡ fail (buffer_too_small expected total)
  unfolding read_exact_loop
  round_empty lt fits answer =
      rw (lt→ltb total expected lt, checked_add-some offset total fits, answer) refl

loop_done :
    (reader : ReadAt) (offset expected fuel total : ℕ) (buf : Bytes)
    → expected ≤ total
    → read_exact_loop reader offset expected fuel total buf ≡ ok buf
unfolding read_exact_loop
loop_done reader offset expected zero total buf h = rw (ge→ltb total expected h)
loop_done reader offset expected (suc fuel) total buf h = rw (ge→ltb total expected h)

loop-slice_inside :
    (bytes : Bytes) (offset fuel n : ℕ) (buf : Bytes)
    → length buf ≡ n
    → 0 < n
    → offset + n ≤ length bytes
    → length bytes < u64_mod
    → read_exact_loop (slice_reader bytes) offset n (suc fuel) 0 buf
      ≡ ok (take n (drop offset bytes))
loop-slice_inside bytes offset fuel n buf e pos h fits =
    round_ok (slice_reader bytes) offset n fuel 0 n buf (take n (drop offset bytes)) (omega arith)
      (omega arith) (rw (add-zero, ← e) (slice_read_at-inside bytes offset buf (omega arith)))
      (omega arith) (omega arith)
    ∙ loop_done (slice_reader bytes) offset n fuel (0 + n) (take n (drop offset bytes))
        (omega arith)

loop-slice_across :
    (bytes : Bytes) (offset fuel n : ℕ) (buf : Bytes)
    → length buf ≡ n
    → offset < length bytes
    → length bytes < offset + n
    → length bytes < u64_mod
    → read_exact_loop (slice_reader bytes) offset n (suc (suc fuel)) 0 buf
      ≡ fail (buffer_too_small n (length bytes - offset))
loop-slice_across bytes offset fuel n buf e h k fits =
    let left : ℕ = length bytes - offset in
    let filled = (supply (drop offset bytes) buf left).0 in
    round_ok (slice_reader bytes) offset n (suc fuel) 0 left buf filled (omega arith) (omega arith)
      (rw add-zero (slice_read_at-across bytes offset buf (omega arith) (omega arith)))
      (omega arith) (omega arith)
    ∙ round_empty (slice_reader bytes) offset n fuel (0 + left) 0 filled (drop (0 + left) filled)
        (omega arith) (omega arith)
        (slice_read_at-outside bytes (offset + (0 + left)) (drop (0 + left) filled) (omega arith))
    ∙ ap (λ (k : ℕ). fail (buffer_too_small n k)) {y = left} (omega arith)

loop-slice_behind :
    (bytes : Bytes) (offset fuel n : ℕ) (buf : Bytes)
    → 0 < n
    → offset < u64_mod
    → length bytes ≤ offset
    → read_exact_loop (slice_reader bytes) offset n (suc fuel) 0 buf
      ≡ fail (buffer_too_small n (length bytes - offset))
loop-slice_behind bytes offset fuel n buf pos fits h =
    round_empty (slice_reader bytes) offset n fuel 0 0 buf buf pos (omega arith)
      (slice_read_at-outside bytes (offset + 0) buf (omega arith))
    ∙ ap (λ (k : ℕ). fail (buffer_too_small n k)) {x = 0} (omega arith)

-- On a slice shorter than 2^64 bytes an exact read inside its bounds returns the bytes asked for.
pub read_exact_at-slice :
    (bytes : Bytes) (offset n : ℕ)
    → offset + n ≤ length bytes
    → length bytes < u64_mod
    → read_exact_at (slice_reader bytes) offset (replicate n 0) ≡ ok (take n (drop offset bytes))
unfolding read_exact_at
read_exact_at-slice bytes offset zero h fits = loop_done _ _ _ _ _ _ (omega arith)
read_exact_at-slice bytes offset (suc n) h fits = rw (length-replicate {A = ℕ} n 0) (
    loop-slice_inside bytes offset n (suc n) (replicate (suc n) 0) (length-replicate (suc n) 0)
      (omega arith) h fits)

loop-slice_past :
    (bytes : Bytes) (offset n : ℕ)
    → offset < u64_mod
    → length bytes < offset + suc n
    → length bytes < u64_mod
    → read_exact_loop (slice_reader bytes) offset (suc n) (suc n) 0 (replicate (suc n) 0)
      ≡ fail (buffer_too_small (suc n) (length bytes - offset))
loop-slice_past bytes offset zero o h fits =
    loop-slice_behind bytes offset zero 1 (replicate 1 0) (omega arith) o (omega arith)
loop-slice_past bytes offset (suc n) o h fits = elim (le-cases (length bytes) offset) [
  | inl le ↦
      loop-slice_behind bytes offset (suc n) (suc (suc n)) (replicate (suc (suc n)) 0) (omega arith)
        o le
  | inr lt ↦
      loop-slice_across bytes offset n (suc (suc n)) (replicate (suc (suc n)) 0)
        (length-replicate (suc (suc n)) 0) lt h fits
]

-- On a slice shorter than 2^64 bytes an exact read of some bytes past its bounds, from an offset
-- that is a `u64`, fails and says how many bytes there were.
pub read_exact_at-slice_short :
    (bytes : Bytes) (offset n : ℕ)
    → offset < u64_mod
    → 0 < n
    → length bytes < offset + n
    → length bytes < u64_mod
    → read_exact_at (slice_reader bytes) offset (replicate n 0)
      ≡ fail (buffer_too_small n (length bytes - offset))
unfolding read_exact_at
read_exact_at-slice_short bytes offset zero o pos h fits = absurd (omega arith)
read_exact_at-slice_short bytes offset (suc n) o pos h fits =
    rw (length-replicate {A = ℕ} n 0) (loop-slice_past bytes offset n o h fits)
