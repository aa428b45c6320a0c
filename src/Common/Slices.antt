-- ===== src/Common/Slices.antt =====
-- Rust's slice operations on bytes: `get(start..)`, `get(start..end)`, and a splice.
use elfex.Common.Outcome.{Outcome, ok, panic}
use elfex.Common.Tests.{leb, if◌then◌else◌, le→leb, gt→leb, ◌==◌}
use elfex.Common.Lists.{Bytes, length, take, drop, get_elem?}
use Prim.Native.Nat.{ℕ, zero, suc, ◌+◌, ◌-◌, ◌≤◌, ◌<◌}
use mathlib.Core.Path.{◌≡◌, refl}
use native.Mathlib.Omega.{arith}
use mathlib.Core.Bool.{Bool, true, false, ◌&&◌}
use mathlib.Core.List.{List, [], ◌∷◌, ◌++◌}
use mathlib.Core.Option.{Option, none, some}

-- `data.get(start..)`
unfoldable pub get_from : Bytes → ℕ → Option Bytes
get_from bytes start = if leb start (length bytes) then some (drop start bytes) else none

-- `data.get(start..end)`
unfoldable pub get_range : Bytes → ℕ → ℕ → Option Bytes
get_range bytes start end =
    if leb start end && leb end (length bytes)
    then some (take (end - start) (drop start bytes))
    else none

-- `data[start..start + patch.len()].copy_from_slice(patch)`, where the range is inside
unfoldable pub splice : Bytes → ℕ → Bytes → Bytes
splice bytes start patch = take start bytes ++ (patch ++ drop (start + length patch) bytes)

-- `data[i]`, which panics out of bounds
unfoldable pub index : Bytes → ℕ → Outcome ℕ
index bytes i = elim (get_elem? bytes i) [ none ↦ panic | some b ↦ ok b ]

-- `data[start..end]`, which panics out of bounds
unfoldable pub slice : Bytes → ℕ → ℕ → Outcome Bytes
slice bytes start end =
    if leb start end && leb end (length bytes)
    then ok (take (end - start) (drop start bytes))
    else panic

-- `data.chunks_exact(n)`, for `n` other than 0: each round takes a byte at least.
unfoldable pub chunks : ℕ → ℕ → Bytes → List Bytes
chunks zero n bytes = []
chunks (suc fuel) n bytes =
    let more = take n bytes ∷ chunks fuel n (drop n bytes) in
    if leb n (length bytes) then more else []

unfoldable pub chunks_exact : ℕ → Bytes → List Bytes
chunks_exact n bytes = chunks (length bytes) n bytes

-- Equality of two byte strings.
unfoldable pub bytes_eq : Bytes → Bytes → Bool
bytes_eq [] [] = true
bytes_eq [] (y ∷ ys) = false
bytes_eq (x ∷ xs) [] = false
bytes_eq (x ∷ xs) (y ∷ ys) = x == y && bytes_eq xs ys

pub get_from-some :
    (bytes : Bytes) (start : ℕ)
    → start ≤ length bytes
    → get_from bytes start ≡ some (drop start bytes)
unfolding get_from
get_from-some bytes start h = rw (le→leb _ _ h)

pub get_from-none : (bytes : Bytes) (start : ℕ) → length bytes < start → get_from bytes start ≡ none
unfolding get_from
get_from-none bytes start h = rw (gt→leb _ _ h)

pub bytes_eq→eq : (a b : Bytes) → bytes_eq a b ≡ true → a ≡ b
unfolding bytes_eq
bytes_eq→eq [] [] h = refl
bytes_eq→eq [] (y ∷ ys) h = cc
bytes_eq→eq (x ∷ xs) [] h = cc
bytes_eq→eq (x ∷ xs) (y ∷ ys) h = ground (arith, bytes_eq→eq xs ys)

pub bytes_eq_refl : (a : Bytes) → bytes_eq a a ≡ true
unfolding bytes_eq
bytes_eq_refl [] = refl
bytes_eq_refl (x ∷ xs) = ground (arith, bytes_eq_refl xs)

pub slice-ok :
    (bytes : Bytes) (start end : ℕ)
    → start ≤ end
    → end ≤ length bytes
    → slice bytes start end ≡ ok (take (end - start) (drop start bytes))
unfolding slice
slice-ok bytes start end h k = rw (le→leb _ _ h, le→leb _ _ k)
