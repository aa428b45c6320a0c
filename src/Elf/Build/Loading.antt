-- ===== src/Elf/Build/Loading.antt =====
-- The loop that places the loadable segments: when it succeeds, and when it panics.
use elfex.Common.{
  ℕ, ◌+◌, ◌-◌, ◌≤◌, ◌<◌, ◌≡◌, ◌≢◌, refl, sym, ap, ◌∙◌, subst, arith, Bytes, List, [], ◌∷◌, ◌++◌,
  inl, inr, le→leb, gt→leb, ge→ltb, eq→==, if◌then◌else◌, ◌==◌, Bool-cases, le-cases, min, All,
  length, take, replicate, length-replicate, length-take, none, some, ◌⊎◌,
}
use elfex.Common.Outcome.{Outcome, ok, panic, ◌>>=◌, checked_sub}
use elfex.Elf.{ElfImage}
use elfex.Elf.Build.Mapped.{
  copy_in, map_segment, map_segments, write_headers, to_mapped_image_at, apply_relative_relocations,
}
use elfex.Elf.Build.Output.{max_image}
use elfex.Elf.Edit.ReadBack.{length-splice}
use elfex.Elf.Inspect.{image_base, image_span}
use elfex.Program.{Segment}
use elfex.Program.SegmentType

-- A segment starts within the mapped image: it is not loadable, lies below the base, or its place
-- is no further than the end.
abbrev pub StartsInside : ℕ → ℕ → Segment → Type 0
StartsInside base span s =
    (s.header.type ≢ SegmentType.load) ⊎ ((s.header.vaddr < base) ⊎ (s.header.vaddr - base ≤ span))

pub checked_sub-none : (a b : ℕ) → a < b → checked_sub a b ≡ none
unfolding checked_sub
checked_sub-none a b h = rw (gt→leb b a h)

pub checked_sub-some : (a b : ℕ) → b ≤ a → checked_sub a b ≡ some (a - b)
unfolding checked_sub
checked_sub-some a b h = rw (le→leb b a h)

copy_in-ok :
    (out : Bytes) (start : ℕ) (bs : Bytes)
    → start + length bs ≤ length out
    → (out' : Bytes) × (copy_in out start bs ≡ ok out') × (length out' ≡ length out)
unfolding copy_in
copy_in-ok out start bs h = rw (le→leb _ _ h) (_, refl, length-splice out start bs h)

copy_in-panic :
    (out : Bytes) (start : ℕ) (bs : Bytes) → length out < start → copy_in out start bs ≡ panic
unfolding copy_in
copy_in-panic out start bs h = rw (gt→leb (start + length bs) (length out) (omega arith))

map_segment-ok :
    (base : ℕ) (out : Bytes) (s : Segment)
    → StartsInside base (length out) s
    → (out' : Bytes) × (map_segment base out s ≡ ok out') × (length out' ≡ length out)
unfolding map_segment
map_segment-ok base out s inside = elim (Bool-cases (s.header.type == SegmentType.load)) [
  | inr other ↦ rw other (_, refl, refl)
  | inl load ↦ elim (le-cases base s.header.vaddr) [
    | inr below ↦ rw (load, checked_sub-none _ _ below) (_, refl, refl)
    | inl above ↦
        let count = min (length s.bytes) (length out - (s.header.vaddr - base)) in
        let start : s.header.vaddr - base ≤ length out = ground arith in
        let fits = copy_in-ok out (s.header.vaddr - base) (take count s.bytes) in
        rw (load, checked_sub-some _ _ above)
          (fits (omega (arith, start, length-take count s.bytes)))
  ]
]

-- The first segment that starts behind the end makes the loop panic.
map_segments-panic :
    (base : ℕ) (out : Bytes) (before : List Segment) (s : Segment) (after : List Segment)
    → All (StartsInside base (length out)) before
    → s.header.type ≡ SegmentType.load
    → base + length out < s.header.vaddr
    → map_segments base out (before ++ (s ∷ after)) ≡ panic
unfolding map_segments map_segment
map_segments-panic base out [] s after inside load far = rw (
  eq→== _ _ load,
  checked_sub-some s.header.vaddr base (omega arith),
  copy_in-panic out (s.header.vaddr - base)
      (take (min (length s.bytes) (length out - (s.header.vaddr - base))) s.bytes) (omega arith),
)
map_segments-panic base out (t ∷ before) s after inside load far =
    let (one, first, size) = map_segment-ok base out t inside.0 in
    rw first (
      map_segments-panic base one before s after
        (subst (λ (n : ℕ). All (StartsInside base n) before) (sym size) inside.1) load
        (omega (arith, size)))

-- An image with a span of at most 256 MiB that has a loadable segment whose address lies behind the
-- end of the span makes the mapped layout panic, at any base. The segments before it start inside.
pub to_mapped_image_at-panic :
    (image : ElfImage) (base : ℕ) (before : List Segment) (s : Segment) (after : List Segment)
    → image.segments ≡ before ++ (s ∷ after)
    → image_span image ≤ max_image
    → All (StartsInside (image_base image) (image_span image)) before
    → s.header.type ≡ SegmentType.load
    → image_base image + image_span image < s.header.vaddr
    → to_mapped_image_at image base ≡ panic
unfolding to_mapped_image_at
to_mapped_image_at-panic image base before s after shape small inside load far =
    let size = length-replicate {A = ℕ} (image_span image) 0 in
    let out = replicate {A = ℕ} (image_span image) 0 in
    let stop =
      map_segments-panic (image_base image) out before s after
        (subst (λ (n : ℕ). All (StartsInside (image_base image) n) before) (sym size) inside) load
        (omega (arith, size)) in
    rw (ge→ltb max_image (image_span image) small) (
      ap
        (λ (o : Outcome Bytes). o >>= λ mapped.
          let headed = write_headers image mapped in
          if base == image_base image
          then ok headed
          else apply_relative_relocations image headed base)
        (ap (map_segments (image_base image) out) shape ∙ stop))
