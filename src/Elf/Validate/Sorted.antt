-- ===== src/Elf/Validate/Sorted.antt =====
-- The memory ranges in order: what sorting keeps and what it gives.
use elfex.Common.{◌≤◌, ◌≡◌, arith, List, [], ◌∷◌, ◌⊎◌, inl, inr, true, false, Bool-cases, All}
use elfex.Common.Pairwise.{Pairwise, All-map}
use elfex.Elf.Validate.Ranges.{Range, range_le, insert_range, sort_ranges}
use mathlib.Core.Logic.{◌↔◌}

-- One of two ranges ends where the other begins, or before.
abbrev pub Apart : Range → Range → Type 0
Apart a b = (a.end ≤ b.start) ⊎ (b.end ≤ a.start)

abbrev pub IsProper : Range → Type 0
IsProper r = r.start ≤ r.end

-- The order of tuples, without the index.
abbrev pub Before : Range → Range → Type 0
Before a b = (a.start ≤ b.start) × (a.start ≡ b.start → a.end ≤ b.end)

abbrev pub IsSorted : List Range → Type 0
IsSorted rs = Pairwise Before rs

pub Apart-sym : (a b : Range) → Apart a b → Apart b a
Apart-sym a b (inl h) = inr h
Apart-sym a b (inr h) = inl h

range_le→Before : (a b : Range) → range_le a b ≡ true → Before a b
unfolding range_le
range_le→Before a b h = (ground arith, λ e. ground arith)

range_le→After : (a b : Range) → range_le a b ≡ false → Before b a
unfolding range_le
range_le→After a b h = (ground arith, λ e. ground arith)

Before-trans : (a b c : Range) → Before a b → Before b c → Before a c
Before-trans a b c h k = (omega (arith, h.0, k.0), λ e. ground (arith, h.0, k.0, h.1, k.1))

pub All-insert_range {κ} :
    (P : Range → Type κ) (r : Range) (xs : List Range)
    → All P (insert_range r xs) ↔ (P r × All P xs)
unfolding insert_range
All-insert_range P r [] = (λ h. h, λ h. h)
All-insert_range P r (x ∷ xs) = elim (Bool-cases (range_le r x)) [
  | inl before ↦ rw before (λ h. h, λ h. h)
  | inr after ↦
      let ih = All-insert_range P r xs in
      rw after (λ h. ((ih.0 h.1).0, (h.0, (ih.0 h.1).1)), λ h. (h.1.0, ih.1 (h.0, h.1.1)))
]

insert_range-IsSorted : (r : Range) (xs : List Range) → IsSorted xs → IsSorted (insert_range r xs)
unfolding insert_range
insert_range-IsSorted r [] s = (tt, tt)
insert_range-IsSorted r (x ∷ xs) s = elim (Bool-cases (range_le r x)) [
  | inl before ↦
      let b = range_le→Before r x before in
      rw before ((b, All-map (λ y k. Before-trans r x y b k) xs s.0), s)
  | inr after ↦ rw after (
    (All-insert_range (Before x) r xs).1 (range_le→After r x after, s.0),
    insert_range-IsSorted r xs s.1,
  )
]

pub sort_ranges-IsSorted : (rs : List Range) → IsSorted (sort_ranges rs)
unfolding sort_ranges
sort_ranges-IsSorted [] = tt
sort_ranges-IsSorted (r ∷ rs) = insert_range-IsSorted r (sort_ranges rs) (sort_ranges-IsSorted rs)

pub All-sort_ranges {κ} : (P : Range → Type κ) (rs : List Range) → All P (sort_ranges rs) ↔ All P rs
unfolding sort_ranges
All-sort_ranges P [] = (λ h. h, λ h. h)
All-sort_ranges P (r ∷ rs) =
    let ins = All-insert_range P r (sort_ranges rs) in
    let ih = All-sort_ranges P rs in
    (λ h. ((ins.0 h).0, ih.0 (ins.0 h).1), λ h. ins.1 (h.0, ih.1 h.1))

Apart-insert_range :
    (r : Range) (xs : List Range)
    → Pairwise Apart (insert_range r xs) ↔ (All (Apart r) xs × Pairwise Apart xs)
unfolding insert_range
Apart-insert_range r [] = (λ h. h, λ h. h)
Apart-insert_range r (x ∷ xs) = elim (Bool-cases (range_le r x)) [
  | inl before ↦ rw before (λ h. h, λ h. h)
  | inr after ↦
      let ins = All-insert_range (Apart x) r xs in
      let ih = Apart-insert_range r xs in
      rw after (
        λ h. ((Apart-sym x r (ins.0 h.0).0, (ih.0 h.1).0), ((ins.0 h.0).1, (ih.0 h.1).1)),
        λ h. (ins.1 (Apart-sym r x h.0.0, h.1.0), ih.1 (h.0.1, h.1.1)),
      )
]

-- Sorting keeps whether all ranges are apart.
pub Apart-sort_ranges : (rs : List Range) → Pairwise Apart (sort_ranges rs) ↔ Pairwise Apart rs
unfolding sort_ranges
Apart-sort_ranges [] = (λ h. h, λ h. h)
Apart-sort_ranges (r ∷ rs) =
    let ins = Apart-insert_range r (sort_ranges rs) in
    let all = All-sort_ranges (Apart r) rs in
    let ih = Apart-sort_ranges rs in
    (λ h. (all.0 (ins.0 h).0, ih.0 (ins.0 h).1), λ h. ins.1 (all.1 h.0, ih.1 h.1))
