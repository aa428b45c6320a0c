-- ===== src/Builder/Contents.antt =====
-- What inspection finds among the segments and sections that the builder adds one by one.
use elfex.Builder.Pieces.{Parts, note_segment, note_section, add_notes}
use elfex.Builder.Serialize.{NoteSpec, serialize_note}
use elfex.Common.{
  ◌<◌, ◌≡◌, refl, sym, ap, ◌∙◌, Bytes, List, [], ◌∷◌, ◌++◌, append_assoc, append-nil, Bool, false,
  ◌==◌, Bool-cases, inl, inr, All, All-append, find, map, length,
}
use elfex.Common.Outcome.{ok, u64_mod}
use elfex.Elf.{ElfImage}
use elfex.Elf.Inspect.{relocations_of, notes_of, note_segments, note_sections}
use elfex.Ident.Endian.{Endian}
use elfex.Notes
use elfex.Notes.{Note}
use elfex.Notes.Padding.{IsWritable}
use elfex.Notes.RoundTrip.{to_note, serialize_notes, parse_all-serialize_notes}
use elfex.Program.{Segment}
use elfex.Program.SegmentType
use elfex.Section.{Section}
use elfex.Section.SectionType

-- The blocks of notes.
abbrev pub blocks : List NoteSpec → Endian → List Bytes
blocks specs e = map (λ (s : NoteSpec). serialize_note s e) specs

pub note_segments-append :
    (xs ys : List Segment) → note_segments (xs ++ ys) ≡ note_segments xs ++ note_segments ys
unfolding note_segments
note_segments-append [] ys = refl
note_segments-append (s ∷ xs) ys = elim (Bool-cases (s.header.type == SegmentType.note)) [
  | inl note ↦ rw (note, note_segments-append xs ys)
  | inr other ↦ rw (other, note_segments-append xs ys)
]

pub note_sections-append :
    (xs ys : List Section) → note_sections (xs ++ ys) ≡ note_sections xs ++ note_sections ys
unfolding note_sections
note_sections-append [] ys = refl
note_sections-append (s ∷ xs) ys = elim (Bool-cases (s.header.type == SectionType.note)) [
  | inl note ↦ rw (note, note_sections-append xs ys)
  | inr other ↦ rw (other, note_sections-append xs ys)
]

one_segment : (bytes : Bytes) → note_segments (note_segment bytes ∷ []) ≡ bytes ∷ []
unfolding note_segments note_segment
one_segment bytes = refl

one_section : (name bytes : Bytes) → note_sections (note_section name bytes ∷ []) ≡ bytes ∷ []
unfolding note_sections note_section
one_section name bytes = refl

pub add_notes-note_segments :
    (specs : List NoteSpec) (e : Endian) (parts : Parts)
    → note_segments (add_notes specs e parts).segments
      ≡ note_segments parts.segments ++ blocks specs e
unfolding add_notes note_segment
add_notes-note_segments [] e parts = sym (append-nil (note_segments parts.segments))
add_notes-note_segments (s ∷ specs) e parts =
    add_notes-note_segments specs e _
    ∙ ap (λ (r : List Bytes). r ++ blocks specs e)
        (note_segments-append parts.segments (note_segment (serialize_note s e) ∷ [])
          ∙ ap (λ (r : List Bytes). note_segments parts.segments ++ r)
              (one_segment (serialize_note s e)))
    ∙ append_assoc (note_segments parts.segments) (serialize_note s e ∷ []) (blocks specs e)

pub add_notes-note_sections :
    (specs : List NoteSpec) (e : Endian) (parts : Parts)
    → note_sections (add_notes specs e parts).sections
      ≡ note_sections parts.sections ++ blocks specs e
unfolding add_notes note_section
add_notes-note_sections [] e parts = sym (append-nil (note_sections parts.sections))
add_notes-note_sections (s ∷ specs) e parts =
    add_notes-note_sections specs e _
    ∙ ap (λ (r : List Bytes). r ++ blocks specs e)
        (note_sections-append parts.sections (note_section s.name (serialize_note s e) ∷ [])
          ∙ ap (λ (r : List Bytes). note_sections parts.sections ++ r)
              (one_section s.name (serialize_note s e)))
    ∙ append_assoc (note_sections parts.sections) (serialize_note s e ∷ []) (blocks specs e)

-- The blocks, each parsed.
pub notes_of-blocks :
    (image : ElfImage) (specs : List NoteSpec)
    → All IsWritable specs
    → All (λ s. length (serialize_note s image.ident.encoding) < u64_mod) specs
    → notes_of image (blocks specs image.ident.encoding) ≡ ok (map to_note specs)
unfolding notes_of serialize_notes
notes_of-blocks image [] w small = refl
notes_of-blocks image (s ∷ specs) w small =
    let e = image.ident.encoding in
    let one : Notes.parse_all (serialize_note s e) e ≡ ok (to_note s ∷ []) =
      ap (λ (b : Bytes). Notes.parse_all b e) (sym (append-nil (serialize_note s e)))
      ∙ parse_all-serialize_notes (s ∷ []) e (w.0, tt) (rw append-nil small.0) in
    rw (one, notes_of-blocks image specs w.1 small.1)

-- A search that finds nothing in front goes on behind it.
pub find-skip {ℓ} :
    {A : Type ℓ} (p : A → Bool) (xs ys : List A)
    → All (λ x. p x ≡ false) xs
    → find p (xs ++ ys) ≡ find p ys
unfolding find
find-skip p [] ys h = refl
find-skip p (x ∷ xs) ys h = rw (h.0, find) (find-skip p xs ys h.1)

-- What all the parts have, the parts with the notes have too.
pub add_notes-segments :
    (P : Segment → Type 0) (specs : List NoteSpec) (e : Endian) (parts : Parts)
    → All P parts.segments
    → All (λ (s : NoteSpec). P (note_segment (serialize_note s e))) specs
    → All P (add_notes specs e parts).segments
unfolding add_notes
add_notes-segments P [] e parts h k = h
add_notes-segments P (s ∷ specs) e parts h k =
    add_notes-segments P specs e _
      (All-append P parts.segments (note_segment (serialize_note s e) ∷ []) h (k.0, tt)) k.1

pub add_notes-sections :
    (P : Section → Type 0) (specs : List NoteSpec) (e : Endian) (parts : Parts)
    → All P parts.sections
    → All (λ (s : NoteSpec). P (note_section s.name (serialize_note s e))) specs
    → All P (add_notes specs e parts).sections
unfolding add_notes
add_notes-sections P [] e parts h k = h
add_notes-sections P (s ∷ specs) e parts h k =
    add_notes-sections P specs e _
      (All-append P parts.sections (note_section s.name (serialize_note s e) ∷ []) h (k.0, tt)) k.1

-- Sections without relocations in front of others.
abbrev pub NoRelocs : Section → Type 0
NoRelocs s =
    ((s.header.type == SectionType.rela) ≡ false) × ((s.header.type == SectionType.rel) ≡ false)

pub relocations_of-skip :
    (image : ElfImage) (xs ys : List Section)
    → All NoRelocs xs
    → relocations_of image (xs ++ ys) ≡ relocations_of image ys
unfolding relocations_of
relocations_of-skip image [] ys h = refl
relocations_of-skip image (x ∷ xs) ys h =
    rw (h.0.0, h.0.1, relocations_of) (relocations_of-skip image xs ys h.1)
