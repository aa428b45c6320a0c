-- ===== src/ParseUtils/Fields.antt =====
-- Arrays and slices out of bytes that are known to go on in some way.
use elfex.Common.{
  ℕ, ◌+◌, ◌≡◌, refl, ap, ◌∙◌, arith, Bytes, ◌++◌, length, take, drop, length-append, length-drop,
  take-append,
}
use elfex.Common.Outcome.{ok}
use elfex.Common.Slices.{slice, slice-ok}
use elfex.ParseUtils.{array, array-ok}
use elfex.Reader.Fields.{At}

module _ (bytes : Bytes) (offset : ℕ) (front rest : Bytes)
    (a : At bytes offset (front ++ rest)) where
  pub At-length : length bytes ≡ offset + length front + length rest
  At-length =
      omega (arith, ap length a.from, length-drop offset bytes, length-append front rest, a.within)

  pub array-At : (n : ℕ) → length front ≡ n → array n bytes offset ≡ ok front
  array-At n h =
      array-ok n bytes offset (omega (arith, At-length)) a.fits
      ∙ ap ok (ap (take n) a.from ∙ take-append n front rest h)

  pub slice-At :
      (start end : ℕ)
      → start ≡ offset
      → end ≡ offset + length front
      → slice bytes start end ≡ ok front
  slice-At start end s t =
      ap (λ (k : ℕ). slice bytes k end) s
      ∙ slice-ok bytes offset end (omega arith) (omega (arith, At-length))
      ∙ ap (λ (k : ℕ). ok (take k (drop offset bytes))) {y = length front} (omega arith)
      ∙ ap ok (ap (take (length front)) a.from ∙ take-append (length front) front rest refl)
