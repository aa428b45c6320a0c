-- ===== src/Builder/Inspected.antt =====
-- The notes that are found in the image that the builder makes.
use elfex.Builder.{
  ElfBuilder, LoadSpec, TlsSpec, load_segment, tls_segments, builder_parts, builder_image,
  builder_ident,
}
use elfex.Builder.Contents.{
  blocks, note_segments-append, note_sections-append, add_notes-note_segments,
  add_notes-note_sections, notes_of-blocks,
}
use elfex.Builder.Pieces.{
  Parts, null_section, add_notes, rela_section, add_rela, dynamic_segment, dynstr_section,
  dynamic_section, add_dynamic,
}
use elfex.Builder.Serialize.{serialize_note}
use elfex.Common.{
  ◌<◌, ◌≡◌, refl, ap, ◌∙◌, Bytes, List, [], ◌∷◌, ◌++◌, append-nil, Option, some, none, ◌==◌,
  Bool-cases, inl, inr, All, any, map, length,
}
use elfex.Common.Outcome.{ok, u64_mod}
use elfex.Elf.Inspect.{notes, notes_of, note_segments, note_sections}
use elfex.Ident.ElfClass.{ElfClass}
use elfex.Ident.Endian.{Endian}
use elfex.Notes.Padding.{IsWritable}
use elfex.Notes.RoundTrip.{to_note}
use elfex.Program.SegmentType
use elfex.Reloc.{RelocationEntry}

-- The parts before the relocations and dependencies.
abbrev pub start : ElfBuilder → Parts
start b = record {
  segments = map load_segment b.loads ++ tls_segments b.tls;
  sections = null_section ∷ [];
}

abbrev pub with_notes : ElfBuilder → Parts
with_notes b = add_notes b.notes b.encoding (start b)

loads-no_notes : (loads : List LoadSpec) → note_segments (map load_segment loads) ≡ []
unfolding note_segments load_segment
loads-no_notes [] = refl
loads-no_notes (l ∷ loads) = loads-no_notes loads

tls-no_notes : (t : Option TlsSpec) → note_segments (tls_segments t) ≡ []
unfolding note_segments tls_segments
tls-no_notes none = refl
tls-no_notes (some t) = refl

-- The parts that are added behind the notes have none.
dynamic-note_segments :
    (names : List Bytes) (e : Endian) (class : ElfClass) (p : Parts)
    → note_segments (add_dynamic names e class p).segments ≡ note_segments p.segments
unfolding add_dynamic
dynamic-note_segments [] e class p = refl
dynamic-note_segments (n ∷ names) e class p =
    note_segments-append p.segments _
    ∙ unfold note_segments dynamic_segment in append-nil (note_segments p.segments)

dynamic-note_sections :
    (names : List Bytes) (e : Endian) (class : ElfClass) (p : Parts)
    → note_sections (add_dynamic names e class p).sections ≡ note_sections p.sections
unfolding add_dynamic note_sections dynstr_section dynamic_section
dynamic-note_sections [] e class p = refl
dynamic-note_sections (n ∷ names) e class p =
    note_sections-append p.sections _ ∙ append-nil (note_sections p.sections)

pub rela-segments :
    (entries : List RelocationEntry) (e : Endian) (class : ElfClass) (p : Parts)
    → (add_rela entries e class p).segments ≡ p.segments
unfolding add_rela
rela-segments [] e class p = refl
rela-segments (r ∷ entries) e class p = refl

rela-note_sections :
    (entries : List RelocationEntry) (e : Endian) (class : ElfClass) (p : Parts)
    → note_sections (add_rela entries e class p).sections ≡ note_sections p.sections
unfolding add_rela note_sections rela_section
rela-note_sections [] e class p = refl
rela-note_sections (r ∷ entries) e class p =
    note_sections-append p.sections _ ∙ append-nil (note_sections p.sections)

builder-note_segments :
    (b : ElfBuilder) → note_segments (builder_parts b).segments ≡ blocks b.notes b.encoding
unfolding builder_parts
builder-note_segments b =
    let none' : note_segments (start b).segments ≡ [] =
      note_segments-append (map load_segment b.loads) (tls_segments b.tls)
      ∙ rw (loads-no_notes b.loads, tls-no_notes b.tls) refl in
    ap note_segments (
      rela-segments b.relocations b.encoding b.class
        (add_dynamic b.needed b.encoding b.class (with_notes b)))
    ∙ dynamic-note_segments b.needed b.encoding b.class (with_notes b)
    ∙ add_notes-note_segments b.notes b.encoding (start b)
    ∙ ap (λ (r : List Bytes). r ++ blocks b.notes b.encoding) none'

no_null_notes : note_sections (null_section ∷ []) ≡ []
unfolding note_sections null_section
no_null_notes = refl

builder-note_sections :
    (b : ElfBuilder) → note_sections (builder_parts b).sections ≡ blocks b.notes b.encoding
unfolding builder_parts
builder-note_sections b =
    rela-note_sections b.relocations b.encoding b.class
      (add_dynamic b.needed b.encoding b.class (with_notes b))
    ∙ dynamic-note_sections b.needed b.encoding b.class (with_notes b)
    ∙ add_notes-note_sections b.notes b.encoding (start b)
    ∙ ap (λ (r : List Bytes). r ++ blocks b.notes b.encoding) no_null_notes

-- Whether they are looked for among the segments or the sections, the notes are those put in.
pub builder-notes :
    (b : ElfBuilder)
    → All IsWritable b.notes
    → All (λ s. length (serialize_note s b.encoding) < u64_mod) b.notes
    → notes (builder_image b) ≡ ok (map to_note b.notes)
unfolding notes builder_image builder_ident
builder-notes b w small =
    let image = builder_image b in
    let found = notes_of-blocks image b.notes w small in
    elim (Bool-cases (any (λ s. s.header.type == SegmentType.note) (builder_parts b).segments)) [
      | inl segments ↦ rw segments (ap (notes_of image) (builder-note_segments b) ∙ found)
      | inr sections ↦ rw sections (ap (notes_of image) (builder-note_sections b) ∙ found)
    ]
