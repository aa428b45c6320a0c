-- ===== src/Elf/Validate/Overlap.antt =====
-- The overlap check: what neighbours in order say of all pairs of loadable segments.
use elfex.Common.{
  ℕ, suc, ◌≤◌, ◌<◌, ◌≡◌, refl, arith, List, [], ◌∷◌, inl, inr, false, ltb, Bool-cases, ltb→ge,
  ltb→lt, ge→ltb, All, any, ◌⊎◌,
}
use elfex.Common.Outcome.{u64_mod, saturating_add}
use elfex.Common.Pairwise.{Pairwise, All-map}
use elfex.Elf.Validate.{load_ranges, overlap_issues}
use elfex.Elf.Validate.Ranges.{Range, sort_ranges}
use elfex.Elf.Validate.Sorted.{
  Apart, IsProper, IsSorted, Before, All-sort_ranges, Apart-sort_ranges, sort_ranges-IsSorted,
}
use elfex.Program.{ProgramHeader}
use elfex.Validation.{is_error, with_context, error}
use mathlib.Core.Logic.{◌↔◌}

-- One of two segments ends in memory where the other begins, or before; an end that no `u64` holds
-- is the greatest `u64`.
abbrev pub DisjointInMemory : ProgramHeader → ProgramHeader → Type 0
DisjointInMemory h k =
    (saturating_add h.vaddr h.memsz ≤ k.vaddr) ⊎ (saturating_add k.vaddr k.memsz ≤ h.vaddr)

abbrev NeighboursApart : List Range → Type 0
NeighboursApart [] = Unit {0}
NeighboursApart (a ∷ []) = Unit {0}
NeighboursApart (a ∷ b ∷ rs) = (a.end ≤ b.start) × NeighboursApart (b ∷ rs)

overlap_issues-NeighboursApart :
    (rs : List Range) → (any is_error (overlap_issues rs) ≡ false) ↔ NeighboursApart rs
unfolding overlap_issues any is_error with_context error
overlap_issues-NeighboursApart [] = (λ h. tt, λ h. refl)
overlap_issues-NeighboursApart (a ∷ []) = (λ h. tt, λ h. refl)
overlap_issues-NeighboursApart (a ∷ b ∷ rs) =
    let ih = overlap_issues-NeighboursApart (b ∷ rs) in
    elim (Bool-cases (ltb b.start a.end)) [
      | inl overlap ↦
          rw overlap (λ h. cc, λ h. absurd (omega (arith, ltb→lt b.start a.end overlap, h.0)))
      | inr apart ↦ rw apart (λ h. (ltb→ge b.start a.end apart, ih.0 h), λ h. ih.1 h.1)
    ]

overlap_issues-nil : (rs : List Range) → NeighboursApart rs → overlap_issues rs ≡ []
unfolding overlap_issues
overlap_issues-nil [] h = refl
overlap_issues-nil (a ∷ []) h = refl
overlap_issues-nil (a ∷ b ∷ rs) h = rw (ge→ltb b.start a.end h.0, overlap_issues-nil (b ∷ rs) h.1)

Neighbours→Apart : (rs : List Range) → IsSorted rs → NeighboursApart rs → Pairwise Apart rs
Neighbours→Apart [] s n = tt
Neighbours→Apart (a ∷ []) s n = (tt, tt)
Neighbours→Apart (a ∷ b ∷ rs) s n =
    let later : All (Apart a) rs =
      All-map {P = Before b} (λ c k. inl (omega (arith, n.0, k.0))) rs s.1.0 in
    ((inl n.0, later), Neighbours→Apart (b ∷ rs) s.1 n.1)

Apart→le : (a b : Range) → IsProper b → Before a b → Apart a b → a.end ≤ b.start
Apart→le a b p s (inl h) = h
Apart→le a b p s (inr h) = omega (arith, s.0, s.1 (omega (arith, s.0)))

Apart→Neighbours :
    (rs : List Range) → All IsProper rs → IsSorted rs → Pairwise Apart rs → NeighboursApart rs
Apart→Neighbours [] p s h = tt
Apart→Neighbours (a ∷ []) p s h = tt
Apart→Neighbours (a ∷ b ∷ rs) p s h =
    (Apart→le a b p.1.0 s.0.0 h.0.0, Apart→Neighbours (b ∷ rs) p.1 s.1 h.1)

load_ranges-IsProper :
    (i : ℕ) (hs : List ProgramHeader)
    → All (λ h. h.vaddr < u64_mod) hs
    → All IsProper (load_ranges i hs)
unfolding load_ranges saturating_add
load_ranges-IsProper i [] t = tt
load_ranges-IsProper i (h ∷ hs) t = (ground (arith, t.0), load_ranges-IsProper (suc i) hs t.1)

All-load_ranges {κ} :
    (P : ℕ → ℕ → Type κ) (i : ℕ) (hs : List ProgramHeader)
    → All (λ r. P r.start r.end) (load_ranges i hs)
      ↔ All (λ h. P h.vaddr (saturating_add h.vaddr h.memsz)) hs
unfolding load_ranges
All-load_ranges P i [] = (λ h. tt, λ h. tt)
All-load_ranges P i (h ∷ hs) =
    let ih = All-load_ranges P (suc i) hs in (λ k. (k.0, ih.0 k.1), λ k. (k.0, ih.1 k.1))

Apart-load_ranges :
    (i : ℕ) (hs : List ProgramHeader)
    → Pairwise Apart (load_ranges i hs) ↔ Pairwise DisjointInMemory hs
unfolding load_ranges
Apart-load_ranges i [] = (λ h. tt, λ h. tt)
Apart-load_ranges i (h ∷ hs) =
    let all =
      All-load_ranges (λ s e. (saturating_add h.vaddr h.memsz ≤ s) ⊎ (e ≤ h.vaddr)) (suc i) hs in
    let ih = Apart-load_ranges (suc i) hs in
    (λ k. (all.0 k.0, ih.0 k.1), λ k. (all.1 k.0, ih.1 k.1))

module _ (hs : List ProgramHeader) (t : All (λ h. h.vaddr < u64_mod) hs) where
  -- No neighbours in order overlap exactly when no two segments do.
  Neighbours-Disjoint :
      NeighboursApart (sort_ranges (load_ranges 0 hs)) ↔ Pairwise DisjointInMemory hs
  Neighbours-Disjoint =
      let rs = load_ranges 0 hs in
      let sorted = sort_ranges-IsSorted rs in
      let proper = (All-sort_ranges IsProper rs).1 (load_ranges-IsProper 0 hs t) in
      (
        λ n.
            (Apart-load_ranges 0 hs).0
              ((Apart-sort_ranges rs).0 (Neighbours→Apart (sort_ranges rs) sorted n)),
        λ d.
            Apart→Neighbours (sort_ranges rs) proper sorted
              ((Apart-sort_ranges rs).1 ((Apart-load_ranges 0 hs).1 d)),
      )

  pub overlap-errors :
      (any is_error (overlap_issues (sort_ranges (load_ranges 0 hs))) ≡ false)
      ↔ Pairwise DisjointInMemory hs
  overlap-errors =
      let rs = sort_ranges (load_ranges 0 hs) in
      (
        λ h. Neighbours-Disjoint.0 ((overlap_issues-NeighboursApart rs).0 h),
        λ d. (overlap_issues-NeighboursApart rs).1 (Neighbours-Disjoint.1 d),
      )

  pub overlap-nil :
      Pairwise DisjointInMemory hs → overlap_issues (sort_ranges (load_ranges 0 hs)) ≡ []
  overlap-nil d = overlap_issues-nil _ (Neighbours-Disjoint.1 d)
