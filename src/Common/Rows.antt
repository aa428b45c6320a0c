-- ===== src/Common/Rows.antt =====
-- Rows of one length, one behind the other, and the slices that they are cut into.
use Prim.Native.Nat.{ℕ, zero, suc, ◌*◌, ◌≤◌, ◌<◌}
use elfex.Common.Lists.{Bytes, length, All, concat, length-append, take-append, drop-append}
use elfex.Common.Slices.{chunks, chunks_exact}
use elfex.Common.Tests.{le→leb, gt→leb}
use mathlib.Core.List.{List, [], ◌∷◌, ◌++◌}
use mathlib.Core.Path.{◌≡◌, refl, ◌∙◌}
use native.Mathlib.Omega.{arith}

module _ (n : ℕ) where
  abbrev pub AreRows : List Bytes → Type 0
  AreRows rows = All (λ r. length r ≡ n) rows

  pub length-concat : (rows : List Bytes) → AreRows rows → length (concat rows) ≡ length rows * n
  length-concat [] same = omega arith
  length-concat (r ∷ rows) same =
      length-append r (concat rows) ∙ grind (arith, same.0, length-concat rows same.1)

  chunks-concat :
      (fuel : ℕ) (rows : List Bytes)
      → length rows ≤ fuel
      → 0 < n
      → AreRows rows
      → chunks fuel n (concat rows) ≡ rows
  unfolding chunks
  chunks-concat zero [] enough wide same = refl
  chunks-concat zero (r ∷ rows) enough wide same = absurd (omega arith)
  chunks-concat (suc fuel) [] enough wide same = rw (gt→leb n 0 wide)
  chunks-concat (suc fuel) (r ∷ rows) enough wide same = rw (
    le→leb n (length (r ++ concat rows)) (omega (arith, same.0, length-append r (concat rows))),
    take-append n r (concat rows) same.0,
    drop-append n r (concat rows) same.0,
    chunks-concat fuel rows (omega arith) wide same.1,
  )

  enough_fuel : (rows : List Bytes) → 0 < n → AreRows rows → length rows ≤ length (concat rows)
  enough_fuel [] wide same = omega arith
  enough_fuel (r ∷ rows) wide same =
      omega (arith, length-append r (concat rows), same.0, enough_fuel rows wide same.1)

  -- Rows of one length above zero are cut apart again.
  pub chunks_exact-concat :
      (rows : List Bytes) → 0 < n → AreRows rows → chunks_exact n (concat rows) ≡ rows
  unfolding chunks_exact
  chunks_exact-concat rows wide same =
      chunks-concat (length (concat rows)) rows (enough_fuel rows wide same) wide same
