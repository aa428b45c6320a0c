-- ===== src/Elf/Build/Segments.antt =====
-- The loop over the segments: where each is placed and what the buffer holds there.
use elfex.Common.{
  ℕ, ◌+◌, ◌%◌, ◌≤◌, ◌<◌, ◌≡◌, ◌≢◌, refl, ◌∙◌, arith, Bytes, List, [], ◌∷◌, inl, inr, ◌==◌,
  Bool-cases, ==→eq, ==→ne, eq→==, length, take, length-take, max, min,
}
use elfex.Common.Outcome.{u64_mod}
use elfex.Elf.Build.{writable, segment_offset}
use elfex.Elf.Build.Buffer.{Holds, Keeps, Keeps-refl, Keeps-trans, Keeps-narrow, Holds-Keeps, Wrote}
use elfex.Elf.Build.Congruence.{congruent-ge, congruent_least}
use elfex.Elf.Build.Output.{max_image}
use elfex.Program.{ProgramHeader, Segment}
use elfex.Program.SegmentType

-- A segment stands in the buffer as its written header says: with its own fields but for the
-- offset and the number of bytes, between two offsets, and at a congruent one if it is loadable.
pub record PlacedAs (out : Bytes) (lo hi : ℕ) (s : Segment) (h : ProgramHeader) : Type 0 where
  pub header : h ≡ record s.header { offset = h.offset; filesz = writable s }
  pub held : Holds out h.offset (take (writable s) s.bytes)
  pub behind : writable s ≢ 0 → lo ≤ h.offset
  pub limit : h.offset + writable s ≤ hi
  pub aligned :
      writable s ≢ 0
      → s.header.type ≡ SegmentType.load
      → h.offset % max s.header.align 1 ≡ s.header.vaddr % max s.header.align 1

abbrev pub AllPlaced : Bytes → ℕ → ℕ → List Segment → List ProgramHeader → Type 0
AllPlaced out lo hi [] [] = Unit {0}
AllPlaced out lo hi [] (h ∷ hs) = ⊥
AllPlaced out lo hi (s ∷ ss) [] = ⊥
AllPlaced out lo hi (s ∷ ss) (h ∷ hs) = PlacedAs out lo hi s h × AllPlaced out lo hi ss hs

pub length-writable : (s : Segment) → length (take (writable s) s.bytes) ≡ writable s
unfolding writable
length-writable s = omega (arith, length-take (min s.header.filesz (length s.bytes)) s.bytes)

pub nothing-Holds : (out : Bytes) (n : ℕ) (bs : Bytes) → n ≡ 0 → Holds out 0 (take n bs)
nothing-Holds out n bs z =
    rw z (record { room = omega arith; same = λ i h. absurd (omega (arith, h)) })

-- A buffer that keeps a range keeps the segments that are placed in it.
pub PlacedAs-Keeps :
    {out out' : Bytes} {lo hi lo' hi' : ℕ} {s : Segment} {h : ProgramHeader}
    → lo' ≤ lo
    → hi ≤ hi'
    → Keeps lo hi out out'
    → PlacedAs out lo hi s h
    → PlacedAs out' lo' hi' s h
PlacedAs-Keeps {out} {out'} {lo} {hi} {lo'} {hi'} {s} {h} l u k p = record {
  header = p.header;
  held = elim (Bool-cases (writable s == 0)) [
    | inl none' ↦
        let empty : length (take (writable s) s.bytes) ≡ 0 = length-writable s ∙ ==→eq _ 0 none' in
        record {
          room = omega (arith, p.held.room, k.longer);
          same = λ i b. absurd (omega (arith, b, empty));
        }
    | inr some' ↦
        Holds-Keeps p.held k (p.behind (==→ne _ 0 some'))
          (omega (arith, length-writable s, p.limit))
  ];
  behind = λ full. omega (arith, p.behind full);
  limit = omega (arith, p.limit);
  aligned = p.aligned;
}

pub AllPlaced-Keeps :
    {out out' : Bytes} {lo hi lo' hi' : ℕ} (ss : List Segment) (hs : List ProgramHeader)
    → lo' ≤ lo
    → hi ≤ hi'
    → Keeps lo hi out out'
    → AllPlaced out lo hi ss hs
    → AllPlaced out' lo' hi' ss hs
AllPlaced-Keeps [] [] l u k p = tt
AllPlaced-Keeps [] (h ∷ hs) l u k p = absurd p
AllPlaced-Keeps (s ∷ ss) [] l u k p = absurd p
AllPlaced-Keeps (s ∷ ss) (h ∷ hs) l u k p =
    (PlacedAs-Keeps l u k p.0, AllPlaced-Keeps ss hs l u k p.1)

pub AllPlaced-length :
    (out : Bytes) (lo hi : ℕ) (ss : List Segment) (hs : List ProgramHeader)
    → AllPlaced out lo hi ss hs
    → length hs ≡ length ss
AllPlaced-length out lo hi [] [] p = refl
AllPlaced-length out lo hi [] (h ∷ hs) p = absurd p
AllPlaced-length out lo hi (s ∷ ss) [] p = absurd p
AllPlaced-length out lo hi (s ∷ ss) (h ∷ hs) p = omega (arith, AllPlaced-length out lo hi ss hs p.1)

pub segment_offset-ge :
    (cursor : ℕ) (s : Segment) → cursor < u64_mod → cursor ≤ segment_offset cursor s
unfolding segment_offset
segment_offset-ge cursor s h = congruent-ge cursor s.header.vaddr _ h

pub segment_offset-aligned :
    (cursor : ℕ) (s : Segment)
    → cursor ≤ max_image
    → segment_offset cursor s ≤ max_image
    → s.header.type ≡ SegmentType.load
    → segment_offset cursor s % max s.header.align 1 ≡ s.header.vaddr % max s.header.align 1
unfolding segment_offset
segment_offset-aligned cursor s c o load =
    let test = eq→== s.header.type SegmentType.load load in
    rw test
      (congruent_least cursor s.header.vaddr (max s.header.align 1) (omega arith) (omega arith)
        (omega (arith, rw test at o))).0

-- What a round, or the whole loop, does to the buffer and the cursor.
pub record Moves (out : Bytes) (cursor : ℕ) (out' : Bytes) (cursor' : ℕ) : Type 0 where
  pub forward : cursor ≤ cursor'
  pub limit : cursor' ≤ max_image
  pub keeps : Keeps 0 cursor out out'
  pub bounded : length out ≤ max_image → length out' ≤ max_image

pub Moves-trans : {a b c : Bytes} {i j k : ℕ} → Moves a i b j → Moves b j c k → Moves a i c k
Moves-trans m n = record {
  forward = omega (arith, m.forward, n.forward);
  limit = n.limit;
  keeps = Keeps-trans m.keeps (Keeps-narrow (omega arith) m.forward n.keeps);
  bounded = λ h. n.bounded (m.bounded h);
}

pub Moves-refl : (out : Bytes) (cursor : ℕ) → cursor ≤ max_image → Moves out cursor out cursor
Moves-refl out cursor h = record {
  forward = omega arith;
  limit = h;
  keeps = Keeps-refl 0 cursor out;
  bounded = λ b. b;
}

pub Wrote-Moves :
    {out : Bytes} {cursor at : ℕ} {bs out' : Bytes}
    → cursor ≤ at
    → Wrote out at bs out'
    → Moves out cursor out' (at + length bs)
Wrote-Moves h w = record {
  forward = omega arith;
  limit = w.bound;
  keeps = Keeps-narrow (omega arith) h w.before;
  bounded = λ b. omega (arith, w.size, w.bound);
}
