-- ===== src/Elf/Parse/Lenient.antt =====
-- `read_lenient` on a slice: the bytes that are there, and zeros for the missing ones.
use elfex.Common.{
  ℕ, zero, suc, ◌+◌, ◌-◌, ◌≤◌, ◌<◌, ◌≡◌, refl, sym, ap, ◌∙◌, arith, Bytes, [], ◌++◌, append-nil,
  lt→ltb, ◌==◌, false, ge→ltb, length, take, drop, replicate, inl, inr, le-cases, drop-all,
  length-drop, length-append, length-take, length-replicate, drop-replicate, take-append-drop,
}
use elfex.Common.Outcome.{ok, u64_mod, add_u64-ok}
use elfex.Elf.Inspect.{zero_filled}
use elfex.Elf.Parse.Source.{lenient_loop, read_lenient}
use native.Mathlib.Nat.{add-zero}
use elfex.Reader.{ReadAt, slice_reader}
use elfex.Reader.Slice.{supply, slice_read_at-inside, slice_read_at-outside, slice_read_at-across}

lenient_done :
    (reader : ReadAt) (offset fuel filled : ℕ) (buffer : Bytes)
    → length buffer ≤ filled
    → lenient_loop reader offset fuel filled buffer ≡ ok buffer
unfolding lenient_loop
lenient_done reader offset zero filled buffer h = rw (ge→ltb filled (length buffer) h)
lenient_done reader offset (suc fuel) filled buffer h = rw (ge→ltb filled (length buffer) h)

-- A round of the loop, by what the read answers.
module _ (reader : ReadAt) (offset fuel filled count : ℕ) (buffer got : Bytes) where
  lenient_ok :
      filled < length buffer
      → offset + filled < u64_mod
      → reader.read_at (offset + filled) (drop filled buffer) ≡ (got, ok count)
      → 0 < count
      → filled + count < u64_mod
      → lenient_loop reader offset (suc fuel) filled buffer
        ≡ lenient_loop reader offset fuel (filled + count) (take filled buffer ++ got)
  unfolding lenient_loop
  lenient_ok lt fits answer pos small =
      let nonzero : (count == 0) ≡ false = ground arith in
      rw
        (
          lt→ltb filled (length buffer) lt,
          add_u64-ok offset filled fits,
          answer,
          nonzero,
          add_u64-ok filled count small,
          answer,
        )
        refl

  lenient_empty :
      filled < length buffer
      → offset + filled < u64_mod
      → reader.read_at (offset + filled) (drop filled buffer) ≡ (got, ok 0)
      → lenient_loop reader offset (suc fuel) filled buffer ≡ ok (take filled buffer ++ got)
  unfolding lenient_loop
  lenient_empty lt fits answer =
      rw (lt→ltb filled (length buffer) lt, add_u64-ok offset filled fits, answer, answer) refl

-- Behind the end of the slice nothing is read.
lenient_outside :
    (bytes : Bytes) (offset fuel filled : ℕ) (buffer : Bytes)
    → filled < length buffer
    → length bytes ≤ offset + filled
    → offset + filled < u64_mod
    → 0 < fuel
    → lenient_loop (slice_reader bytes) offset fuel filled buffer ≡ ok buffer
lenient_outside bytes offset zero filled buffer lt behind fits pos = absurd (omega arith)
lenient_outside bytes offset (suc fuel) filled buffer lt behind fits pos =
    lenient_empty (slice_reader bytes) offset fuel filled 0 buffer (drop filled buffer) lt fits
      (slice_read_at-outside bytes (offset + filled) (drop filled buffer) behind)
    ∙ ap (λ (bs : Bytes). ok bs) (take-append-drop filled buffer)

lenient_inside :
    (bytes : Bytes) (offset fuel : ℕ) (buffer : Bytes)
    → 0 < length buffer
    → offset + length buffer ≤ length bytes
    → length bytes < u64_mod
    → lenient_loop (slice_reader bytes) offset (suc fuel) 0 buffer
      ≡ ok (take (length buffer) (drop offset bytes))
lenient_inside bytes offset fuel buffer pos h fits =
    lenient_ok (slice_reader bytes) offset fuel 0 (length buffer) buffer
      (take (length buffer) (drop offset bytes)) pos (omega arith)
      (rw add-zero (slice_read_at-inside bytes offset buffer h)) pos (omega arith)
    ∙ lenient_done (slice_reader bytes) offset fuel (0 + length buffer)
        (take (length buffer) (drop offset bytes))
        (omega (arith, length-take (length buffer) (drop offset bytes)))

lenient_across :
    (bytes : Bytes) (offset fuel : ℕ) (buffer : Bytes)
    → offset < length bytes
    → length bytes < offset + length buffer
    → length bytes < u64_mod
    → 0 < fuel
    → lenient_loop (slice_reader bytes) offset (suc fuel) 0 buffer
      ≡ ok (supply (drop offset bytes) buffer (length bytes - offset)).0
lenient_across bytes offset fuel buffer lt across fits pos =
    let count : ℕ = length bytes - offset in
    let first = (supply (drop offset bytes) buffer count).0 in
    let size : length first ≡ length buffer = omega (
      arith,
      length-append (take count (drop offset bytes)) (drop count buffer),
      length-take count (drop offset bytes),
      length-drop offset bytes,
      length-drop count buffer,
    ) in
    lenient_ok (slice_reader bytes) offset fuel 0 count buffer first (omega arith) (omega arith)
      (rw add-zero (slice_read_at-across bytes offset buffer (omega arith) across)) (omega arith)
      (omega arith)
    ∙ lenient_outside bytes offset fuel (0 + count) first (omega (arith, size)) (omega arith)
        (omega arith) pos

-- The length and the zeros of the buffer that a mapped segment is read into.
supply-zeros :
    (rest : Bytes) (n : ℕ)
    → length rest ≤ n
    → (supply rest (replicate n 0) (length rest)).0 ≡ zero_filled rest n
unfolding zero_filled
supply-zeros rest n h =
    rw (drop-replicate {A = ℕ} (length rest) n 0)
      (ap (λ (k : ℕ). take k rest ++ replicate (n - k) 0) {x = length rest} (omega arith))

pub zero_filled_full : (rest : Bytes) (n : ℕ) → n ≤ length rest → zero_filled rest n ≡ take n rest
unfolding zero_filled
zero_filled_full rest n h =
    ap (λ (k : ℕ). take k rest ++ replicate (n - k) 0) {y = n} (omega arith)
    ∙ ap (λ (k : ℕ). take n rest ++ replicate k 0) {y = 0} (omega arith)
    ∙ append-nil (take n rest)

-- A lenient read of a slice gives the bytes that are there, and zeros for those that are missing,
-- if the offset and the length of the slice are below 2^64.
pub read_lenient-slice :
    (bytes : Bytes) (offset n : ℕ)
    → offset < u64_mod
    → length bytes < u64_mod
    → read_lenient (slice_reader bytes) offset (replicate n 0)
      ≡ ok (zero_filled (drop offset bytes) n)
unfolding read_lenient
read_lenient-slice bytes offset zero small fits =
    lenient_done (slice_reader bytes) offset 0 0 [] (omega arith)
    ∙ ap (λ (bs : Bytes). ok bs) (sym (zero_filled_full (drop offset bytes) 0 (omega arith)))
read_lenient-slice bytes offset (suc m) small fits =
    let zeros : Bytes = replicate (suc m) 0 in
    let size : length zeros ≡ suc m = length-replicate (suc m) 0 in
    let rest_size = length-drop offset bytes in
    let fuel : ℕ = length (drop 1 zeros) in
    elim (le-cases (length bytes) offset) [
      | inl behind ↦
          lenient_outside bytes offset (suc fuel) 0 zeros (omega (arith, size)) (omega arith)
            (omega arith) (omega arith)
          ∙ ap (λ (bs : Bytes). ok bs) (supply-zeros [] (suc m) (omega arith))
          ∙ ap (λ (rest : Bytes). ok (zero_filled rest (suc m)))
              (sym (drop-all offset bytes behind))
      | inr before ↦ elim (le-cases (offset + suc m) (length bytes)) [
        | inl inside ↦
            lenient_inside bytes offset fuel zeros (omega (arith, size)) (omega (arith, size)) fits
            ∙ ap (λ (k : ℕ). ok (take k (drop offset bytes))) size
            ∙ ap (λ (bs : Bytes). ok bs)
                (sym (zero_filled_full (drop offset bytes) (suc m) (omega (arith, rest_size))))
        | inr across ↦
            lenient_across bytes offset fuel zeros before (omega (arith, size)) fits
              (omega (arith, size, length-drop 1 zeros))
            ∙ ap (λ (k : ℕ). ok (supply (drop offset bytes) zeros k).0) (sym rest_size)
            ∙ ap (λ (bs : Bytes). ok bs)
                (supply-zeros (drop offset bytes) (suc m) (omega (arith, rest_size)))
      ]
    ]
