-- ===== src/Elf/Validate/Verdict.antt =====
-- The verdict of validation: which images have no errors, and which have no issue at all.
use elfex.Common.{
  ℕ, suc, ◌+◌, ◌%◌, ◌≤◌, ◌<◌, ◌≡◌, ◌≢◌, refl, arith, List, [], ◌∷◌, ◌++◌, some, Option-cases, inl,
  inr, true, false, Bool-cases, ==→eq, eq→==, All, any, get_elem?, ◌⊎◌,
}
use elfex.Common.Outcome.{u64_mod, checked_add}
use elfex.Common.Pairwise.{Pairwise, any-append}
use elfex.Elf.{ElfImage}
use elfex.Elf.Inspect.{image_base, image_span}
use elfex.Elf.Validate.{
  validate, load_headers, load_ranges, load_issues, entry_issues, is_outside, overlap_issues,
  size_issues, alignment_issues, is_misaligned, header_issues, names_strtab, table_issues,
}
use elfex.Elf.Validate.Overlap.{DisjointInMemory, overlap-errors, overlap-nil}
use elfex.Elf.Validate.Ranges.{sort_ranges}
use elfex.Program.{ProgramHeader}
use elfex.Section.{Section}
use elfex.Section.SectionType
use elfex.Validation.{is_error, is_ok, has_errors, with_context, warning, error, ValidationIssue}
use mathlib.Core.Logic.{◌↔◌}

abbrev pub FileFitsMemory : ProgramHeader → Type 0
FileFitsMemory h = h.filesz ≤ h.memsz

-- The congruence that a loader needs, where a segment has file bytes.
abbrev pub IsCongruent : ProgramHeader → Type 0
IsCongruent h = (h.align ≤ 1) ⊎ ((h.offset % h.align ≡ h.vaddr % h.align) ⊎ (h.filesz ≡ 0))

abbrev pub EntryInside : ElfImage → Type 0
EntryInside image =
    (image.header.entry ≡ 0)
    ⊎ ((image_base image ≤ image.header.entry)
        × (image.header.entry < image_base image + image_span image)
        × (image_base image + image_span image < u64_mod))

abbrev pub NamesTable : ElfImage → Type 0
NamesTable image =
    (image.header.shnum ≡ 0)
    ⊎ ((s : Section) × (get_elem? image.sections image.header.shstrndx ≡ some s)
        × (s.header.type ≡ SectionType.strtab))

load_issues-warnings : (hs : List ProgramHeader) → any is_error (load_issues hs) ≡ false
unfolding load_issues any is_error warning
load_issues-warnings [] = refl
load_issues-warnings (h ∷ hs) = refl

entry_issues-warnings : (image : ElfImage) → any is_error (entry_issues image) ≡ false
unfolding entry_issues any is_error warning with_context
entry_issues-warnings image = ground arith

table_issues-warnings : (image : ElfImage) → any is_error (table_issues image) ≡ false
unfolding table_issues any is_error warning
table_issues-warnings image = ground arith

alignment_issues-warnings :
    (i : ℕ) (h : ProgramHeader) → any is_error (alignment_issues i h) ≡ false
unfolding alignment_issues any is_error warning with_context
alignment_issues-warnings i h = ground arith

size_issues-errors :
    (i : ℕ) (h : ProgramHeader) → (any is_error (size_issues i h) ≡ false) ↔ FileFitsMemory h
unfolding size_issues any is_error error with_context
size_issues-errors i h = (λ k. ground arith, λ k. ground arith)

header_issues-errors :
    (i : ℕ) (hs : List ProgramHeader)
    → (any is_error (header_issues i hs) ≡ false) ↔ All FileFitsMemory hs
unfolding header_issues any
header_issues-errors i [] = (λ h. tt, λ h. refl)
header_issues-errors i (h ∷ hs) =
    let rest = alignment_issues i h ++ header_issues (suc i) hs in
    let outer = any-append is_error (size_issues i h) rest in
    let inner = any-append is_error (alignment_issues i h) (header_issues (suc i) hs) in
    let ih = header_issues-errors (suc i) hs in
    (
      λ k. ((size_issues-errors i h).0 (outer.0 k).0, ih.0 (inner.0 (outer.0 k).1).1),
      λ k.
          outer.1
            ((size_issues-errors i h).1 k.0, inner.1 (alignment_issues-warnings i h, ih.1 k.1)),
    )

-- An image whose loadable segments start at `u64` addresses has no validation error exactly when
-- every two of them, at any distance in the table, are disjoint in memory, where an end that no
-- `u64` holds counts as the greatest `u64`, and none has more file bytes than memory.
pub has_errors-validate :
    (image : ElfImage)
    → All (λ h. h.vaddr < u64_mod) (load_headers image.segments)
    → (has_errors (validate image) ≡ false) ↔ (
        Pairwise DisjointInMemory (load_headers image.segments)
        × All FileFitsMemory (load_headers image.segments))
unfolding has_errors validate
has_errors-validate image t =
    let hs = load_headers image.segments in
    let overlaps = overlap_issues (sort_ranges (load_ranges 0 hs)) in
    let tail = header_issues 0 hs ++ table_issues image in
    let first = any-append is_error (load_issues hs) (entry_issues image ++ (overlaps ++ tail)) in
    let second = any-append is_error (entry_issues image) (overlaps ++ tail) in
    let third = any-append is_error overlaps tail in
    let fourth = any-append is_error (header_issues 0 hs) (table_issues image) in
    (
      λ h.
          let parts = third.0 (second.0 (first.0 h).1).1 in
          ((overlap-errors hs t).0 parts.0, (header_issues-errors 0 hs).0 (fourth.0 parts.1).0),
      λ k. first.1 (
        load_issues-warnings hs,
        second.1 (
          entry_issues-warnings image,
          third.1 (
            (overlap-errors hs t).1 k.0,
            fourth.1 ((header_issues-errors 0 hs).1 k.1, table_issues-warnings image),
          ),
        ),
      ),
    )

append-nil-parts : (xs ys : List ValidationIssue) → xs ++ ys ≡ [] → (xs ≡ []) × (ys ≡ [])
append-nil-parts [] ys h = (refl, h)
append-nil-parts (x ∷ xs) ys h = cc

is_ok→nil :
    (issues : List ValidationIssue) → is_ok (record { issues = issues }) ≡ true → issues ≡ []
unfolding is_ok
is_ok→nil [] h = refl
is_ok→nil (x ∷ xs) h = cc

nil→no-errors : (issues : List ValidationIssue) → issues ≡ [] → any is_error issues ≡ false
unfolding any
nil→no-errors [] h = refl
nil→no-errors (x ∷ xs) h = cc

load_issues-nil : (hs : List ProgramHeader) → (load_issues hs ≡ []) ↔ (hs ≢ [])
unfolding load_issues
load_issues-nil [] = (λ h. cc, λ h. absurd (h refl))
load_issues-nil (h ∷ hs) = (λ h. λ e. cc, λ h. refl)

entry_issues-nil : (image : ElfImage) → (entry_issues image ≡ []) ↔ EntryInside image
unfolding entry_issues is_outside checked_add
entry_issues-nil image = (λ h. ground arith, λ h. ground arith)

alignment_issues-nil : (i : ℕ) (h : ProgramHeader) → (alignment_issues i h ≡ []) ↔ IsCongruent h
unfolding alignment_issues is_misaligned
alignment_issues-nil i h = (λ k. ground arith, λ k. ground arith)

size_issues-nil : (i : ℕ) (h : ProgramHeader) → (size_issues i h ≡ []) ↔ FileFitsMemory h
unfolding size_issues
size_issues-nil i h = (λ k. ground arith, λ k. ground arith)

header_issues-nil :
    (i : ℕ) (hs : List ProgramHeader)
    → (header_issues i hs ≡ []) ↔ (All FileFitsMemory hs × All IsCongruent hs)
unfolding header_issues
header_issues-nil i [] = (λ h. (tt, tt), λ h. refl)
header_issues-nil i (h ∷ hs) =
    let ih = header_issues-nil (suc i) hs in
    (
      λ k.
          let outer = append-nil-parts (size_issues i h) _ k in
          let inner = append-nil-parts (alignment_issues i h) _ outer.1 in
          (
            ((size_issues-nil i h).0 outer.0, (ih.0 inner.1).0),
            ((alignment_issues-nil i h).0 inner.0, (ih.0 inner.1).1),
          ),
      λ k.
          rw (
            (size_issues-nil i h).1 k.0.0,
            (alignment_issues-nil i h).1 k.1.0,
            ih.1 (k.0.1, k.1.1),
          ),
    )

names_strtab_iff :
    (ss : List Section) (i : ℕ)
    → (names_strtab ss i ≡ true)
      ↔ ((s : Section) × (get_elem? ss i ≡ some s) × (s.header.type ≡ SectionType.strtab))
unfolding names_strtab
names_strtab_iff ss i = elim (Option-cases (get_elem? ss i)) [
  | inl absent ↦ (λ h. absurd (ground arith), λ k. absurd (cc))
  | inr (s, found) ↦ (λ h. (s, found, ==→eq _ _ (ground arith)), λ k. ground (arith, k.1, k.2))
]

table_issues-nil : (image : ElfImage) → (table_issues image ≡ []) ↔ NamesTable image
unfolding table_issues
table_issues-nil image =
    let names = names_strtab_iff image.sections image.header.shstrndx in
    (
      λ h. elim (Bool-cases (names_strtab image.sections image.header.shstrndx)) [
        | inl good ↦ inr (names.0 good)
        | inr bad ↦ inl (ground arith)
      ],
      λ n. elim n [ inl zero' ↦ rw (eq→== _ _ zero') | inr table ↦ ground (arith, names.1 table) ],
    )

-- Validation of an image whose loadable segments start at `u64` addresses reports nothing exactly
-- when there is a loadable segment, the entry point is zero or lies in the span of an image whose
-- end is a `u64`, every two loadable segments are disjoint in memory, where an end that no `u64`
-- holds counts as the greatest `u64`, none has more file bytes than memory, the file offset of each
-- that has file bytes and an alignment above one is congruent with its address modulo the
-- alignment, and the section-name index, where the header counts sections, is that of a string
-- table.
pub is_ok-validate :
    (image : ElfImage)
    → All (λ h. h.vaddr < u64_mod) (load_headers image.segments)
    → (is_ok (validate image) ≡ true) ↔ (
        (load_headers image.segments ≢ [])
        × EntryInside image
        × Pairwise DisjointInMemory (load_headers image.segments)
        × All FileFitsMemory (load_headers image.segments)
        × All IsCongruent (load_headers image.segments)
        × NamesTable image)
unfolding is_ok validate
is_ok-validate image t =
    let hs = load_headers image.segments in
    let overlaps = overlap_issues (sort_ranges (load_ranges 0 hs)) in
    (
      λ h.
          let one = append-nil-parts (load_issues hs) _ (is_ok→nil _ h) in
          let two = append-nil-parts (entry_issues image) _ one.1 in
          let three = append-nil-parts overlaps _ two.1 in
          let four = append-nil-parts (header_issues 0 hs) _ three.1 in
          let headers = (header_issues-nil 0 hs).0 four.0 in
          (
            (load_issues-nil hs).0 one.0,
            (entry_issues-nil image).0 two.0,
            (overlap-errors hs t).0 (nil→no-errors overlaps three.0),
            headers.0,
            headers.1,
            (table_issues-nil image).0 four.1,
          ),
      λ k. rw (
        (load_issues-nil hs).1 k.0,
        (entry_issues-nil image).1 k.1,
        overlap-nil hs t k.2,
        (header_issues-nil 0 hs).1 (k.3, k.4),
        (table_issues-nil image).1 k.5,
      ),
    )
