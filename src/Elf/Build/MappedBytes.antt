-- ===== src/Elf/Build/MappedBytes.antt =====
-- src/elf/build.rs: the bytes of the loadable segments in the mapped image.
use elfex.Common.{
  ℕ, zero, suc, ◌+◌, ◌-◌, ◌≤◌, ◌<◌, ◌≡◌, refl, sym, ap, ◌∙◌, subst, arith, Bytes, List, [], ◌∷◌,
  inl, inr, le→leb, ==→eq, ==→ne, ◌==◌, Bool-cases, le-cases, min, All, length, take, length-take,
  length-append, length-drop, length-replicate, drop, ◌++◌, replicate, get_elem?, some,
}
use elfex.Common.Elements.{get_elem?-take, get_elem?-append_right, get_elem?-drop}
use elfex.Common.Outcome.{ok}
use elfex.Common.Slices.{splice}
use elfex.Elf.Build.Buffer.{splice-before, splice-inside, splice-after}
use elfex.Elf.Build.Loading.{StartsInside, checked_sub-some, checked_sub-none}
use elfex.Elf.Build.Mapped.{copy_in, map_segment, map_segments}
use elfex.Elf.Edit.ReadBack.{length-splice}
use elfex.Program.{Segment}
use elfex.Program.SegmentType

-- A loadable segment at or above the base has a byte for a place in the mapped image.
pub record Covers (base j : ℕ) (s : Segment) : Type 0 where
  pub load : s.header.type ≡ SegmentType.load
  pub above : base ≤ s.header.vaddr
  pub from : s.header.vaddr - base ≤ j
  pub below : j < s.header.vaddr - base + length s.bytes

-- What one segment leaves of a mapped image: its own bytes, as far as there is room, and the rest.
record Laid (base : ℕ) (s : Segment) (old new : Bytes) : Type 0 where
  size : length new ≡ length old
  put :
      (j : ℕ)
      → Covers base j s
      → j < length old
      → get_elem? new j ≡ get_elem? s.bytes (j - (s.header.vaddr - base))
  kept : (j : ℕ) → ¬ Covers base j s → get_elem? new j ≡ get_elem? old j

unmoved-Laid :
    (base : ℕ) (s : Segment) (old : Bytes) → ((j : ℕ) → ¬ Covers base j s) → Laid base s old old
unmoved-Laid base s old bare = record {
  size = refl;
  put = λ j c. absurd (bare j c);
  kept = λ j c. refl;
}

splice-Laid :
    (base : ℕ) (s : Segment) (old : Bytes)
    → s.header.type ≡ SegmentType.load
    → base ≤ s.header.vaddr
    → s.header.vaddr - base ≤ length old
    → Laid base s old (
        splice old
          (s.header.vaddr - base)
          (take (min (length s.bytes) (length old - (s.header.vaddr - base))) s.bytes))
splice-Laid base s old load above start =
    let at = s.header.vaddr - base in
    let count = min (length s.bytes) (length old - at) in
    let patch = take count s.bytes in
    let inside : at + length patch ≤ length old = omega (arith, length-take count s.bytes) in
    record {
      size = length-splice old at patch inside;
      put = λ j c room.
          let i = j - at in
          let at_j : at + i ≡ j = omega (arith, c.from) in
          let short : i < count = omega (arith, c.from, c.below) in
          ap (get_elem? (splice old at patch)) (sym at_j)
          ∙ splice-inside old at patch inside i (omega (arith, length-take count s.bytes))
          ∙ get_elem?-take count s.bytes i short;
      kept = λ j c. elim (le-cases at j) [
        | inr before ↦ splice-before old at patch inside j before
        | inl from ↦ elim (le-cases (at + length patch) j) [
          | inl behind ↦ splice-after old at patch inside j behind
          | inr within ↦ absurd (
              c (record {
                load = load;
                above = above;
                from = from;
                below = omega (arith, length-take count s.bytes);
              }))
        ]
      ];
    }

map_segment-Laid :
    (base : ℕ) (out : Bytes) (s : Segment)
    → StartsInside base (length out) s
    → (out' : Bytes) × (map_segment base out s ≡ ok out') × Laid base s out out'
unfolding map_segment copy_in
map_segment-Laid base out s inside = elim (Bool-cases (s.header.type == SegmentType.load)) [
  | inr other ↦ rw other (_, refl, unmoved-Laid base s out (λ j c. ==→ne _ _ other c.load))
  | inl load ↦ elim (le-cases base s.header.vaddr) [
    | inr below ↦
        rw (load, checked_sub-none _ _ below)
          (_, refl, unmoved-Laid base s out (λ j c. let a = c.above in absurd (omega arith)))
    | inl above ↦
        let count = min (length s.bytes) (length out - (s.header.vaddr - base)) in
        let start : s.header.vaddr - base ≤ length out = ground arith in
        rw (load, checked_sub-some _ _ above)
          (
            _,
            rw
                (le→leb (s.header.vaddr - base + length (take count s.bytes)) (length out)
                  (omega (arith, length-take count s.bytes)))
                refl,
            splice-Laid base s out (==→eq _ _ load) above start,
          )
  ]
]

-- Each segment has its bytes at their places from `lo` on, but for those that a later one covers.
abbrev pub Keeps : ℕ → ℕ → Bytes → List Segment → Type 0
Keeps base lo mapped [] = Unit {0}
Keeps base lo mapped (s ∷ ss) =
    ((j : ℕ)
      → Covers base j s
      → All (λ t. ¬ Covers base j t) ss
      → lo ≤ j
      → j < length mapped
      → get_elem? mapped j ≡ get_elem? s.bytes (j - (s.header.vaddr - base)))
    × Keeps base lo mapped ss

pub record AllLaid (base : ℕ) (ss : List Segment) (old new : Bytes) : Type 0 where
  pub size : length new ≡ length old
  pub put : Keeps base 0 new ss
  pub kept : (j : ℕ) → All (λ s. ¬ Covers base j s) ss → get_elem? new j ≡ get_elem? old j

pub map_segments-AllLaid :
    (base : ℕ) (out : Bytes) (ss : List Segment)
    → All (StartsInside base (length out)) ss
    → (out' : Bytes) × (map_segments base out ss ≡ ok out') × AllLaid base ss out out'
unfolding map_segments
map_segments-AllLaid base out [] inside =
    (_, refl, record { size = refl; put = tt; kept = λ j c. refl })
map_segments-AllLaid base out (s ∷ ss) inside =
    let (one, first, laid) = map_segment-Laid base out s inside.0 in
    let (more, second, rest) =
      map_segments-AllLaid base one ss
        (subst (λ (n : ℕ). All (StartsInside base n) ss) (sym laid.size) inside.1) in
    rw (first, second)
      (
        _,
        refl,
        record {
          size = rest.size ∙ laid.size;
          put = (
            λ j c clear low room.
                rest.kept j clear ∙ laid.put j c (omega (arith, rest.size, laid.size)),
            rest.put,
          );
          kept = λ j (c, cs). rest.kept j cs ∙ laid.kept j c;
        },
      )

-- From `lo` on a mapped image has the bytes of its segments, and zeros where none has any.
pub record HasSegments (base lo : ℕ) (ss : List Segment) (mapped : Bytes) : Type 0 where
  pub segments : Keeps base lo mapped ss
  pub zeros :
      (j : ℕ)
      → All (λ s. ¬ Covers base j s) ss
      → lo ≤ j
      → j < length mapped
      → get_elem? mapped j ≡ some 0

get_elem?-zeros : (n j : ℕ) → j < n → get_elem? {A = ℕ} (replicate n 0) j ≡ some 0
get_elem?-zeros zero j h = absurd (omega arith)
get_elem?-zeros (suc n) zero h = refl
get_elem?-zeros (suc n) (suc j) h = get_elem?-zeros n j (omega arith)

Keeps-behind :
    (base lo : ℕ) (ss : List Segment) (old new : Bytes)
    → length new ≡ length old
    → ((j : ℕ) → lo ≤ j → get_elem? new j ≡ get_elem? old j)
    → Keeps base 0 old ss
    → Keeps base lo new ss
Keeps-behind base lo [] old new size same k = tt
Keeps-behind base lo (s ∷ ss) old new size same k = (
  λ j c clear low room. same j low ∙ k.0 j c clear (omega arith) (omega (arith, size)),
  Keeps-behind base lo ss old new size same k.1,
)

-- A head in front of the bytes that are laid leaves them from its end on.
pub head-HasSegments :
    (base span : ℕ) (ss : List Segment) (head mapped : Bytes)
    → length head ≤ span
    → AllLaid base ss (replicate span 0) mapped
    → HasSegments base (length head) ss (head ++ drop (length head) mapped)
head-HasSegments base span ss head mapped room laid =
    let full = length-replicate {A = ℕ} span 0 in
    let tail = drop (length head) mapped in
    let size : length (head ++ tail) ≡ length mapped =
      omega (arith, length-append head tail, length-drop (length head) mapped, laid.size, full) in
    let same = λ (j : ℕ) (low : length head ≤ j).
      get_elem?-append_right head tail j low
      ∙ get_elem?-drop (length head) mapped (j - length head)
      ∙ ap (get_elem? mapped) {x = length head + (j - length head)} {y = j} (omega arith) in
    record {
      segments = Keeps-behind base (length head) ss mapped (head ++ tail) size same laid.put;
      zeros = λ j clear low inside.
          same j low
          ∙ laid.kept j clear
          ∙ get_elem?-zeros span j (omega (arith, size, laid.size, full));
    }
