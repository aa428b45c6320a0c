-- ===== src/Elf/Build/Reparsed.antt =====
-- Parsing the written file of an image without sections gives its segments again.
use elfex.Common.{
  ℕ, ◌≡◌, ◌≢◌, refl, sym, ap, ◌∙◌, subst, arith, Bytes, List, [], ◌∷◌, inl, inr, ◌==◌, Bool-cases,
  ==→eq, All, map, take, drop,
}
use elfex.Common.Outcome.{ok}
use elfex.Elf.{ElfImage}
use elfex.Elf.Build.{writable, try_build}
use elfex.Elf.Build.Buffer.{Holds→take}
use elfex.Elf.Build.Output.{max_image}
use elfex.Elf.Build.ReadBack.{try_build-Serialized, writable-le}
use elfex.Elf.Build.Segments.{AllPlaced, PlacedAs, length-writable}
use elfex.Elf.Build.Serialized.{table_end}
use elfex.Elf.Parse.{parse}
use elfex.Elf.Parse.Layouts.{IsPlaced, segment_in, parse-from_slice}
use elfex.Elf.Parse.Sections.{read_file_sections}
use elfex.Header.{ElfHeader}
use elfex.Header.RoundTrip as HeaderTrip
use elfex.Headers.{ElfHeaders}
use elfex.Ident.ElfClass.{ElfClass, elf32, elf64}
use elfex.Program.{ProgramHeader, Segment}
use elfex.Program.RoundTrip as ProgramTrip
use elfex.Program.RoundTrip.{FitsClass}
use elfex.Program.SegmentType
use elfex.Reader.{ReadAt, slice_reader}

-- A parsed segment is the original one with the bytes that it declares, at an offset of its own.
pub record SameSegment (s t : Segment) : Type 0 where
  pub header : t.header ≡ record s.header { offset = t.header.offset; filesz = writable s }
  pub bytes : s.header.type ≢ SegmentType.null → t.bytes ≡ take (writable s) s.bytes

abbrev pub SameSegments : List Segment → List Segment → Type 0
SameSegments [] [] = Unit {0}
SameSegments [] (t ∷ ts) = ⊥
SameSegments (s ∷ ss) [] = ⊥
SameSegments (s ∷ ss) (t ∷ ts) = SameSegment s t × SameSegments ss ts

narrow-placed :
    (class : ElfClass) (bytes : Bytes) (lo : ℕ) (s : Segment) (h : ProgramHeader)
    → FitsClass class s.header
    → PlacedAs bytes lo max_image s h
    → ProgramTrip.narrow class h ≡ h
unfolding ProgramTrip.narrow
narrow-placed elf64 bytes lo s h f p = refl
narrow-placed elf32 bytes lo s h f p = ProgramTrip.narrow_lem elf32 h (
    subst ProgramTrip.FitsElf32 (sym p.header)
      (omega (arith, p.limit, f, writable-le s, f.filesz_fits)))

pub narrow-all :
    (class : ElfClass) (bytes : Bytes) (lo : ℕ) (ss : List Segment) (hs : List ProgramHeader)
    → All (λ s. FitsClass class s.header) ss
    → AllPlaced bytes lo max_image ss hs
    → map (ProgramTrip.narrow class) hs ≡ hs
narrow-all class bytes lo [] [] f p = refl
narrow-all class bytes lo [] (h ∷ hs) f p = absurd p
narrow-all class bytes lo (s ∷ ss) [] f p = absurd p
narrow-all class bytes lo (s ∷ ss) (h ∷ hs) f p =
    rw (narrow-placed class bytes lo s h f.0 p.0, narrow-all class bytes lo ss hs f.1 p.1)

filesz-writable :
    {bytes : Bytes} {lo : ℕ} {s : Segment} {h : ProgramHeader}
    → PlacedAs bytes lo max_image s h
    → h.filesz ≡ writable s
filesz-writable p = ap (λ (k : ProgramHeader). k.filesz) p.header

pub AllPlaced-IsPlaced :
    (bytes : Bytes) (lo : ℕ) (ss : List Segment) (hs : List ProgramHeader)
    → AllPlaced bytes lo max_image ss hs
    → All (IsPlaced bytes) hs
AllPlaced-IsPlaced bytes lo [] [] p = tt
AllPlaced-IsPlaced bytes lo [] (h ∷ hs) p = absurd p
AllPlaced-IsPlaced bytes lo (s ∷ ss) [] p = absurd p
AllPlaced-IsPlaced bytes lo (s ∷ ss) (h ∷ hs) (q, more) =
    let size = filesz-writable q in
    (
      λ typed full.
          (omega (arith, size, length-writable s, q.held.room), omega (arith, size, q.limit)),
      AllPlaced-IsPlaced bytes lo ss hs more,
    )

PlacedAs-Same :
    {bytes : Bytes} {lo : ℕ} {s : Segment} {h : ProgramHeader}
    → PlacedAs bytes lo max_image s h
    → SameSegment s (segment_in bytes h)
unfolding segment_in
PlacedAs-Same {bytes} {lo} {s} {h} p = record {
  header = p.header;
  bytes = λ typed. elim (Bool-cases (h.type == SegmentType.null)) [
    | inl null ↦ absurd (typed (sym (ap (λ (k : ProgramHeader). k.type) p.header) ∙ ==→eq _ _ null))
    | inr other ↦ rw other (
        ap (λ (n : ℕ). take n (drop h.offset bytes)) (filesz-writable p ∙ sym (length-writable s))
        ∙ Holds→take p.held)
  ];
}

pub AllPlaced-Same :
    (bytes : Bytes) (lo : ℕ) (ss : List Segment) (hs : List ProgramHeader)
    → AllPlaced bytes lo max_image ss hs
    → SameSegments ss (map (segment_in bytes) hs)
AllPlaced-Same bytes lo [] [] p = tt
AllPlaced-Same bytes lo [] (h ∷ hs) p = absurd p
AllPlaced-Same bytes lo (s ∷ ss) [] p = absurd p
AllPlaced-Same bytes lo (s ∷ ss) (h ∷ hs) p = (PlacedAs-Same p.0, AllPlaced-Same bytes lo ss hs p.1)

pub no_sections :
    (reader : ReadAt) (headers : ElfHeaders)
    → headers.header.shnum ≡ 0
    → read_file_sections reader headers ≡ ok []
unfolding read_file_sections
no_sections reader headers none' = ground arith

pub narrow-shnum : (class : ElfClass) (h : ElfHeader) → (HeaderTrip.narrow class h).shnum ≡ h.shnum
unfolding HeaderTrip.narrow
narrow-shnum elf32 h = refl
narrow-shnum elf64 h = refl

-- The written file of an image without sections, if there is one, is parsed, and the parsed image
-- has the identification and the segments of the original: each with its own header but for the
-- offset and the number of bytes, and, unless its type is null, with the bytes that its header
-- declares, as far as the segment has them. The two copies of the identification agree, the fields
-- are in the range of their types, and the addresses and sizes are in the range of the class.
pub parse-try_build :
    (image : ElfImage) {bytes : Bytes}
    → image.header.ident ≡ image.ident
    → HeaderTrip.IsTyped image.header
    → All (λ s. ProgramTrip.IsTyped s.header) image.segments
    → All (λ s. FitsClass image.ident.class s.header) image.segments
    → image.sections ≡ []
    → try_build image ≡ ok bytes
    → (parsed : ElfImage) × (parse bytes ≡ ok parsed)
      × (parsed.ident ≡ image.ident)
      × SameSegments image.segments parsed.segments
      × (parsed.sections ≡ [])
parse-try_build image {bytes} same t ts fits bare built =
    let s = try_build-Serialized image same t ts built in
    let class = image.ident.class in
    let lo = table_end image in
    let whole = narrow-all class bytes lo image.segments s.phdrs fits s.placed in
    let headers : ElfHeaders = record {
      ident = image.ident;
      header = HeaderTrip.narrow class s.header;
      program_headers = map (ProgramTrip.narrow class) s.phdrs;
    } in
    (
      _,
      parse-from_slice bytes headers [] (omega (arith, s.limit)) s.read_back
          (subst (All (IsPlaced bytes)) (sym whole)
            (AllPlaced-IsPlaced bytes lo image.segments s.phdrs s.placed))
          (no_sections (slice_reader bytes) headers (narrow-shnum class s.header ∙ s.bare bare)),
      refl,
      subst (λ (hs : List ProgramHeader). SameSegments image.segments (map (segment_in bytes) hs))
          (sym whole) (AllPlaced-Same bytes lo image.segments s.phdrs s.placed),
      refl,
    )
