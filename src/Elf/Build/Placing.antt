-- ===== src/Elf/Build/Placing.antt =====
-- The rounds of the loops over segments and sections.
use elfex.Common.{
  ℕ, ◌+◌, ◌≤◌, ◌≡◌, ◌≢◌, refl, sym, ap, subst, arith, Bytes, List, [], ◌∷◌, inl, inr, ◌==◌,
  Bool-cases, ==→eq, ==→ne, length, take,
}
use elfex.Common.Outcome.{ok, bind-ok-parts, ok-injective}
use elfex.Elf.Build.{writable, segment_offset, place_segment, place_segments}
use elfex.Elf.Build.Buffer.{Keeps-refl, Keeps-narrow, Wrote, write_at-Wrote}
use elfex.Elf.Build.Output.{max_image, write_at}
use elfex.Elf.Build.Segments.{
  PlacedAs, AllPlaced, PlacedAs-Keeps, AllPlaced-Keeps, length-writable, nothing-Holds,
  segment_offset-ge, segment_offset-aligned, Moves, Moves-refl, Moves-trans, Wrote-Moves,
}
use elfex.Program.{ProgramHeader, Segment}

abbrev Placed : Bytes → ℕ → Segment → ProgramHeader × Bytes × ℕ → Type 0
Placed out cursor s r = Moves out cursor r.1 r.2 × PlacedAs r.1 cursor r.2 s r.0

-- A segment that is written at its offset.
written-Placed :
    (out : Bytes) (cursor : ℕ) (s : Segment) {out' : Bytes}
    → cursor ≤ max_image
    → writable s ≢ 0
    → Wrote out (segment_offset cursor s) (take (writable s) s.bytes) out'
    → Placed out cursor s (
      record s.header { offset = segment_offset cursor s; filesz = writable s },
      out',
      segment_offset cursor s + writable s,
    )
written-Placed out cursor s {out'} c full w =
    let ge = segment_offset-ge cursor s (omega arith) in
    let count = length-writable s in
    (
      subst (Moves out cursor out') (omega (arith, count)) (Wrote-Moves ge w),
      record {
        header = refl;
        held = w.held;
        behind = λ f. ge;
        limit = omega arith;
        aligned = λ f load. segment_offset-aligned cursor s c (omega (arith, w.bound)) load;
      },
    )

empty-Placed :
    (out : Bytes) (cursor : ℕ) (s : Segment)
    → cursor ≤ max_image
    → writable s ≡ 0
    → Placed out cursor s (record s.header { offset = 0; filesz = 0 }, out, cursor)
empty-Placed out cursor s c none' = (
  Moves-refl out cursor c,
  record {
    header = ap (λ (n : ℕ). record s.header { offset = 0; filesz = n }) (sym none');
    held = nothing-Holds out (writable s) s.bytes none';
    behind = λ f. absurd (f none');
    limit = omega (arith, none');
    aligned = λ f load. absurd (f none');
  },
)

place_segment-Placed :
    (out : Bytes) (cursor : ℕ) (s : Segment) {r : ProgramHeader × Bytes × ℕ}
    → cursor ≤ max_image
    → place_segment out cursor s ≡ ok r
    → Placed out cursor s r
unfolding place_segment
place_segment-Placed out cursor s c h = elim (Bool-cases (writable s == 0)) [
  | inl none' ↦
      let e = rw none' at h in
      subst (Placed out cursor s) (ok-injective e) (empty-Placed out cursor s c (==→eq _ 0 none'))
  | inr some' ↦
      let e = rw some' at h in
      let (out', rest, wrote) =
        bind-ok-parts (write_at out (segment_offset cursor s) (take (writable s) s.bytes)) _ e in
      subst (Placed out cursor s) (ok-injective rest)
        (written-Placed out cursor s c (==→ne _ 0 some') (write_at-Wrote out _ _ wrote))
]

abbrev AllMoved : Bytes → ℕ → List Segment → List ProgramHeader × Bytes × ℕ → Type 0
AllMoved out cursor ss r = Moves out cursor r.1 r.2 × AllPlaced r.1 cursor r.2 ss r.0

-- A segment, then the others.
pair-AllMoved :
    (out : Bytes) (cursor : ℕ) (s : Segment) (ss : List Segment) (one : ProgramHeader × Bytes × ℕ)
    (more : List ProgramHeader × Bytes × ℕ)
    → Placed out cursor s one
    → AllMoved one.1 one.2 ss more
    → AllMoved out cursor (s ∷ ss) (one.0 ∷ more.0, more.1, more.2)
pair-AllMoved out cursor s ss one more p m = (
  Moves-trans p.0 m.0,
  (
    PlacedAs-Keeps (omega arith) m.0.forward (Keeps-narrow (omega arith) (omega arith) m.0.keeps)
        p.1,
    AllPlaced-Keeps ss more.0 p.0.forward (omega arith) (Keeps-refl _ _ more.1) m.1,
  ),
)

pub place_segments-AllMoved :
    (out : Bytes) (cursor : ℕ) (ss : List Segment) {r : List ProgramHeader × Bytes × ℕ}
    → cursor ≤ max_image
    → place_segments out cursor ss ≡ ok r
    → AllMoved out cursor ss r
unfolding place_segments
place_segments-AllMoved out cursor [] c h =
    subst (AllMoved out cursor []) (ok-injective h) (Moves-refl out cursor c, tt)
place_segments-AllMoved out cursor (s ∷ ss) c h =
    let (one, rest, first) = bind-ok-parts (place_segment out cursor s) _ h in
    let (more, last, second) = bind-ok-parts (place_segments one.1 one.2 ss) _ rest in
    let p = place_segment-Placed out cursor s c first in
    let m = place_segments-AllMoved one.1 one.2 ss p.0.limit second in
    subst (AllMoved out cursor (s ∷ ss)) (ok-injective last)
      (pair-AllMoved out cursor s ss one more p m)

pub place_segments-length :
    (out : Bytes) (cursor : ℕ) (ss : List Segment) {r : List ProgramHeader × Bytes × ℕ}
    → place_segments out cursor ss ≡ ok r
    → length r.0 ≡ length ss
unfolding place_segments
place_segments-length out cursor [] h =
    subst (λ (r : List ProgramHeader × Bytes × ℕ). length r.0 ≡ 0) (ok-injective h) refl
place_segments-length out cursor (s ∷ ss) h =
    let (one, rest, first) = bind-ok-parts (place_segment out cursor s) _ h in
    let (more, last, second) = bind-ok-parts (place_segments one.1 one.2 ss) _ rest in
    subst (λ (r : List ProgramHeader × Bytes × ℕ). length r.0 ≡ length (s ∷ ss)) (ok-injective last)
      (omega (arith, place_segments-length one.1 one.2 ss second))
