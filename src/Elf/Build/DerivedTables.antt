-- ===== src/Elf/Build/DerivedTables.antt =====
-- What is found by a search among the segments or sections of an image, and among those of the
-- image that is parsed from its written file.
use elfex.Common.{
  ℕ, ◌≡◌, ◌≢◌, refl, sym, ap, ◌∙◌, subst, arith, Bytes, List, [], ◌∷◌, ◌++◌, Option, some, none,
  Bool, true, false, ◌⊎◌, inl, inr, ◌==◌, Bool-cases, Option-cases, ==→eq, All, find, any, length,
  take, take-all,
}
use elfex.Common.Slices.{bytes_eq, bytes_eq→eq}
use elfex.Elf.Build.{writable}
use elfex.Elf.Build.Names.{is_shstrtab, shstrtab_name, empty_shstrtab, ensure_shstrtab, position}
use elfex.Elf.Build.Reparsed.{SameSegment, SameSegments}
use elfex.Elf.Build.SameSections.{SameSection, SameSections, listed}
use elfex.Elf.Inspect.{note_segments}
use elfex.Elf.Parse.Whole.{IsWhole}
use elfex.Program.{ProgramHeader, Segment}
use elfex.Program.SegmentType
use elfex.Section.{Section, is_nobits}

-- A section of a type without bytes has none in memory either.
abbrev pub IsHonest : Section → Type 0
IsHonest s = is_nobits s.header ≡ true → s.bytes ≡ []

-- Two searches end alike.
abbrev pub Alike : {A : Type 0} → (A → A → Type 0) → Option A → Option A → Type 0
Alike {A} R m n = ((m ≡ none) × (n ≡ none)) ⊎ ((a b : A) × (m ≡ some a) × (n ≡ some b) × R a b)

abbrev pub SameBytes : Section → Section → Type 0
SameBytes s t = t.bytes ≡ s.bytes

kept-bytes : (s t : Section) → SameSection s t → IsHonest s → is_shstrtab s ≡ false → SameBytes s t
kept-bytes s t h honest other = elim (Bool-cases (is_nobits s.header)) [
  | inl nobits ↦ h.bytes other ∙ rw nobits (sym (honest nobits))
  | inr bits ↦ h.bytes other ∙ rw bits refl
]

other-name :
    (s : Section) (name : Bytes)
    → bytes_eq name shstrtab_name ≡ false
    → bytes_eq s.name name ≡ true
    → is_shstrtab s ≡ false
unfolding is_shstrtab
other-name s name other e =
    let same = bytes_eq→eq s.name name e in
    let differs : bytes_eq s.name shstrtab_name ≡ false =
      ap (λ (b : Bytes). bytes_eq b shstrtab_name) same ∙ other in
    rw differs refl

pub by_name-Alike :
    (name : Bytes) (ss ts : List Section)
    → bytes_eq name shstrtab_name ≡ false
    → All IsHonest ss
    → SameSections ss ts
    → Alike SameBytes (find (λ s. bytes_eq s.name name) ss) (find (λ s. bytes_eq s.name name) ts)
unfolding find
by_name-Alike name [] [] o g h = inl (refl, refl)
by_name-Alike name [] (t ∷ ts) o g h = absurd h
by_name-Alike name (s ∷ ss) [] o g h = absurd h
by_name-Alike name (s ∷ ss) (t ∷ ts) o g h =
    let named : bytes_eq t.name name ≡ bytes_eq s.name name =
      ap (λ (b : Bytes). bytes_eq b name) h.0.name in
    elim (Bool-cases (bytes_eq s.name name)) [
      | inl found ↦ inr (
        s,
        t,
        rw (found, find) refl,
        rw (named ∙ found, find) refl,
        kept-bytes s t h.0 g.0 (other-name s name o found),
      )
      | inr missed ↦ rw (missed, named ∙ missed, find) (by_name-Alike name ss ts o g.1 h.1)
    ]

pub find-behind :
    (p : Section → Bool) (ss : List Section) (s : Section)
    → p s ≡ false
    → find p (ss ++ (s ∷ [])) ≡ find p ss
unfolding find
find-behind p [] s miss = rw (miss, find) refl
find-behind p (x ∷ ss) s miss = elim (Bool-cases (p x)) [
  | inl hit ↦ rw (hit, find) refl
  | inr no_hit ↦ rw (no_hit, find) (find-behind p ss s miss)
]

pub listed-cases :
    (ss : List Section) → (listed ss ≡ ss) ⊎ (listed ss ≡ ss ++ (empty_shstrtab ∷ []))
unfolding ensure_shstrtab
listed-cases [] = inl refl
listed-cases (s ∷ ss) = elim (Option-cases (position (s ∷ ss))) [
  | inl absent ↦ inr (rw (absent, listed, ensure_shstrtab) refl)
  | inr (i, found) ↦ inl (rw (found, listed, ensure_shstrtab) refl)
]

-- A segment that is whole, and not of a null type.
pub whole-kept :
    (s t : Segment)
    → IsWhole s
    → SameSegment s t
    → s.header.type ≢ SegmentType.null
    → (t.bytes ≡ s.bytes) × (t.header ≡ record s.header { offset = t.header.offset })
unfolding writable
whole-kept s t w h typed =
    let full = w.full typed in
    let size : writable s ≡ length s.bytes = omega (arith, full) in
    (
      h.bytes typed
          ∙ ap (λ (n : ℕ). take n s.bytes) size
          ∙ take-all (length s.bytes) s.bytes (omega arith),
      subst (λ (n : ℕ). t.header ≡ record s.header { offset = t.header.offset; filesz = n })
          (size ∙ full) h.header,
    )

same-kind : (s t : Segment) → SameSegment s t → t.header.type ≡ s.header.type
same-kind s t h = ap (λ (k : ProgramHeader). k.type) h.header

abbrev pub SameContent : Segment → Segment → Type 0
SameContent s t = (t.bytes ≡ s.bytes) × (t.header ≡ record s.header { offset = t.header.offset })

pub by_type-Alike :
    (type : ℕ) (ss ts : List Segment)
    → type ≢ SegmentType.null
    → All IsWhole ss
    → SameSegments ss ts
    → Alike SameContent
        (find (λ s. s.header.type == type) ss)
        (find (λ s. s.header.type == type) ts)
unfolding find
by_type-Alike type [] [] o w h = inl (refl, refl)
by_type-Alike type [] (t ∷ ts) o w h = absurd h
by_type-Alike type (s ∷ ss) [] o w h = absurd h
by_type-Alike type (s ∷ ss) (t ∷ ts) o w h =
    let kind : (t.header.type == type) ≡ (s.header.type == type) =
      ap (λ (k : ℕ). k == type) (same-kind s t h.0) in
    elim (Bool-cases (s.header.type == type)) [
      | inl found ↦ inr (
        s,
        t,
        rw (found, find) refl,
        rw (kind ∙ found, find) refl,
        whole-kept s t w.0 h.0 (λ z. o (sym (==→eq s.header.type type found) ∙ z)),
      )
      | inr missed ↦ rw (missed, kind ∙ missed, find) (by_type-Alike type ss ts o w.1 h.1)
    ]

pub note_segments-Same :
    (ss ts : List Segment)
    → All IsWhole ss
    → SameSegments ss ts
    → note_segments ts ≡ note_segments ss
unfolding note_segments
note_segments-Same [] [] w h = refl
note_segments-Same [] (t ∷ ts) w h = absurd h
note_segments-Same (s ∷ ss) [] w h = absurd h
note_segments-Same (s ∷ ss) (t ∷ ts) w h =
    let kind = same-kind s t h.0 in
    elim (Bool-cases (s.header.type == SegmentType.note)) [
      | inl note ↦
          let e = ==→eq s.header.type SegmentType.note note in
          rw (
            kind,
            note,
            (whole-kept s t w.0 h.0 (λ z. omega (arith, e, z))).0,
            note_segments-Same ss ts w.1 h.1,
          )
      | inr other ↦ rw (kind, other, note_segments-Same ss ts w.1 h.1)
    ]

pub any-Same :
    (ss ts : List Segment)
    → SameSegments ss ts
    → any (λ s. s.header.type == SegmentType.note) ts
      ≡ any (λ s. s.header.type == SegmentType.note) ss
unfolding any
any-Same [] [] h = refl
any-Same [] (t ∷ ts) h = absurd h
any-Same (s ∷ ss) [] h = absurd h
any-Same (s ∷ ss) (t ∷ ts) h =
    let kind : (t.header.type == SegmentType.note) ≡ (s.header.type == SegmentType.note) =
      ap (λ (k : ℕ). k == SegmentType.note) (same-kind s t h.0) in
    elim (Bool-cases (s.header.type == SegmentType.note)) [
      | inl note ↦ rw (note, kind ∙ note, any) refl
      | inr other ↦ rw (other, kind ∙ other, any) (any-Same ss ts h.1)
    ]
