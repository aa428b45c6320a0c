-- ===== src/Builder/InspectedNeeded.antt =====
-- The needed libraries that are found in the image that the builder makes.
use elfex.Builder.Inspected.{start, with_notes, rela-segments}
use elfex.Builder.{
  ElfBuilder, LoadSpec, TlsSpec, load_segment, tls_segments, builder_parts, builder_image,
  builder_ident,
}
use elfex.Builder.Contents.{add_notes-segments, add_notes-sections, find-skip}
use elfex.Builder.DynamicTable.{needed-dynamic_bytes}
use elfex.Builder.DynamicRows.{word_limit}
use elfex.Builder.Pieces.{
  Parts, null_section, note_segment, note_section, add_rela, name_strings, name_offsets,
  dynamic_bytes, dynamic_segment, dynstr_section, dynamic_section, dynstr_name, add_dynamic,
}
use elfex.Builder.Serialize.{NoteSpec, serialize_note}
use elfex.Common.{
  ℕ, ◌<◌, ◌≡◌, refl, sym, ap, ◌∙◌, Bytes, List, [], ◌∷◌, ◌++◌, append_assoc, append-nil, Option,
  some, none, Bool, false, ◌==◌, All, All-append, find, map, length,
}
use elfex.Common.Outcome.{ok}
use elfex.Common.Slices.{bytes_eq}
use elfex.Dynamic
use elfex.Dynamic.{DynamicEntry}
use elfex.Elf.{ElfImage}
use elfex.Elf.Inspect.{dynamic, needed_libraries, section_by_name, section_bytes}
use elfex.Ident.ElfClass.{ElfClass}
use elfex.Ident.Endian.{Endian}
use elfex.Program.{Segment}
use elfex.Program.SegmentType
use elfex.Reloc.{RelocationEntry}
use elfex.Section.{Section}
use elfex.StringTable.Names.{IsName}

-- The search for the first segment of a type.
abbrev pub is_type : ℕ → Segment → Bool
is_type type s = s.header.type == type

pub loads-others :
    (type : ℕ) (loads : List LoadSpec)
    → (SegmentType.load == type) ≡ false
    → All (λ s. is_type type s ≡ false) (map load_segment loads)
unfolding load_segment
loads-others type [] h = tt
loads-others type (l ∷ loads) h = (h, loads-others type loads h)

tls-others :
    (t : Option TlsSpec) → All (λ s. is_type SegmentType.dynamic s ≡ false) (tls_segments t)
unfolding tls_segments
tls-others none = tt
tls-others (some t) = (refl, tt)

pub notes-others :
    (type : ℕ) (specs : List NoteSpec) (e : Endian)
    → (SegmentType.note == type) ≡ false
    → All (λ (s : NoteSpec). is_type type (note_segment (serialize_note s e)) ≡ false) specs
unfolding note_segment
notes-others type [] e h = tt
notes-others type (s ∷ specs) e h = (h, notes-others type specs e h)

front-no_dynamic :
    (b : ElfBuilder) → All (λ s. is_type SegmentType.dynamic s ≡ false) (with_notes b).segments
front-no_dynamic b =
    add_notes-segments (λ s. is_type SegmentType.dynamic s ≡ false) b.notes b.encoding (start b)
      (All-append (λ s. is_type SegmentType.dynamic s ≡ false) (map load_segment b.loads)
        (tls_segments b.tls) (loads-others SegmentType.dynamic b.loads refl) (tls-others b.tls))
      (notes-others SegmentType.dynamic b.notes b.encoding refl)

-- The sections before the strings have other names.
abbrev OtherName : Section → Type 0
OtherName s = bytes_eq s.name dynstr_name ≡ false

notes-OtherName :
    (specs : List NoteSpec) (e : Endian)
    → All (λ (s : NoteSpec). OtherName (note_section s.name (serialize_note s e))) specs
unfolding note_section bytes_eq
notes-OtherName [] e = tt
notes-OtherName (s ∷ specs) e = (refl, notes-OtherName specs e)

null-OtherName : OtherName null_section
unfolding null_section bytes_eq
null-OtherName = refl

front-OtherName : (b : ElfBuilder) → All OtherName (with_notes b).sections
front-OtherName b =
    add_notes-sections OtherName b.notes b.encoding (start b) (null-OtherName, tt)
      (notes-OtherName b.notes b.encoding)

module _ (names : List Bytes) (e : Endian) (class : ElfClass) where
  abbrev strings : Bytes
  strings = name_strings (0 ∷ []) names

  abbrev table : Bytes
  table = dynamic_bytes (name_offsets (0 ∷ []) names) (length strings) e class

  has_strings :
      (image : ElfImage)
      → section_by_name image dynstr_name ≡ some (dynstr_section strings)
      → section_bytes image dynstr_name ≡ strings
  unfolding section_bytes dynstr_section
  has_strings image section = rw (section, section_bytes) refl

  has_dynamic :
      (image : ElfImage) {entries : List DynamicEntry}
      → image.ident.encoding ≡ e
      → image.ident.class ≡ class
      → find (is_type SegmentType.dynamic) image.segments ≡ some (dynamic_segment table)
      → Dynamic.parse table e class ≡ ok entries
      → dynamic image ≡ ok (some entries)
  unfolding dynamic dynamic_segment
  has_dynamic image ee ec segment parsed = rw (segment, dynamic) (rw (ee, ec, parsed) refl)

  -- The needed libraries of an image with these two.
  needed-found :
      (image : ElfImage)
      → image.ident.encoding ≡ e
      → image.ident.class ≡ class
      → All IsName names
      → length strings < word_limit class
      → find (is_type SegmentType.dynamic) image.segments ≡ some (dynamic_segment table)
      → section_by_name image dynstr_name ≡ some (dynstr_section strings)
      → needed_libraries image ≡ ok names
  unfolding needed_libraries
  needed-found image ee ec good small segment section =
      let (entries, parsed, found) = needed-dynamic_bytes names e class good small in
      rw (has_dynamic image ee ec segment parsed) (
        ap (λ (b : Bytes). ok (Dynamic.needed entries b)) (has_strings image section) ∙ ap ok found)

needed-none :
    (image : ElfImage)
    → find (is_type SegmentType.dynamic) image.segments ≡ none
    → needed_libraries image ≡ ok []
unfolding needed_libraries dynamic
needed-none image absent = rw (absent, needed_libraries, dynamic) refl

-- The parts with the dependencies and the relocations.
abbrev finished : List RelocationEntry → List Bytes → Endian → ElfClass → Parts → Parts
finished entries names e class p = add_rela entries e class (add_dynamic names e class p)

dynamic-absent :
    (e : Endian) (class : ElfClass) (p : Parts)
    → All (λ s. is_type SegmentType.dynamic s ≡ false) p.segments
    → find (is_type SegmentType.dynamic) (add_dynamic [] e class p).segments ≡ none
unfolding add_dynamic find
dynamic-absent e class p h =
    ap (find (is_type SegmentType.dynamic)) (sym (append-nil p.segments))
    ∙ find-skip (is_type SegmentType.dynamic) p.segments [] h

dynamic-present :
    (n : Bytes) (names : List Bytes) (e : Endian) (class : ElfClass) (p : Parts)
    → All (λ s. is_type SegmentType.dynamic s ≡ false) p.segments
    → find (is_type SegmentType.dynamic) (add_dynamic (n ∷ names) e class p).segments
      ≡ some (dynamic_segment (table (n ∷ names) e class))
unfolding add_dynamic find dynamic_segment
dynamic-present n names e class p h =
    find-skip (is_type SegmentType.dynamic) p.segments
      (dynamic_segment (table (n ∷ names) e class) ∷ []) h

abbrev is_dynstr : Section → Bool
is_dynstr s = bytes_eq s.name dynstr_name

strings-present :
    (n : Bytes) (names : List Bytes) (e : Endian) (class : ElfClass) (p : Parts)
    (more : List Section)
    → All OtherName p.sections
    → find is_dynstr ((add_dynamic (n ∷ names) e class p).sections ++ more)
      ≡ some (dynstr_section (strings (n ∷ names) e class))
unfolding add_dynamic find dynstr_section bytes_eq
strings-present n names e class p more h =
    let s = strings (n ∷ names) e class in
    ap (find is_dynstr) (append_assoc p.sections _ more)
    ∙ find-skip is_dynstr p.sections
        (dynstr_section s ∷ dynamic_section (table (n ∷ names) e class) class ∷ more) h

strings-found :
    (entries : List RelocationEntry) (n : Bytes) (names : List Bytes) (e : Endian)
    (class : ElfClass) (p : Parts)
    → All OtherName p.sections
    → find is_dynstr (finished entries (n ∷ names) e class p).sections
      ≡ some (dynstr_section (strings (n ∷ names) e class))
unfolding add_rela
strings-found [] n names e class p h =
    ap (find is_dynstr) (sym (append-nil (add_dynamic (n ∷ names) e class p).sections))
    ∙ strings-present n names e class p [] h
strings-found (r ∷ entries) n names e class p h = strings-present n names e class p _ h

finished-needed :
    (image : ElfImage) (entries : List RelocationEntry) (names : List Bytes) (p : Parts)
    → image.segments ≡ (finished entries names image.ident.encoding image.ident.class p).segments
    → image.sections ≡ (finished entries names image.ident.encoding image.ident.class p).sections
    → All (λ s. is_type SegmentType.dynamic s ≡ false) p.segments
    → All OtherName p.sections
    → All IsName names
    → length (strings names image.ident.encoding image.ident.class) < word_limit image.ident.class
    → needed_libraries image ≡ ok names
unfolding section_by_name
finished-needed image entries [] p segments sections other names good small =
    let e = image.ident.encoding in
    let class = image.ident.class in
    needed-none image (
      ap (find (is_type SegmentType.dynamic))
        (segments ∙ rela-segments entries e class (add_dynamic [] e class p))
      ∙ dynamic-absent e class p other)
finished-needed image entries (n ∷ ns) p segments sections other names good small =
    let e = image.ident.encoding in
    let class = image.ident.class in
    needed-found (n ∷ ns) e class image refl refl good small
      (ap (find (is_type SegmentType.dynamic))
          (segments ∙ rela-segments entries e class (add_dynamic (n ∷ ns) e class p))
        ∙ dynamic-present n ns e class p other)
      (ap (find is_dynstr) sections ∙ strings-found entries n ns e class p names)

pub builder-needed :
    (b : ElfBuilder)
    → All IsName b.needed
    → length (name_strings (0 ∷ []) b.needed) < word_limit b.class
    → needed_libraries (builder_image b) ≡ ok b.needed
unfolding builder_image builder_ident builder_parts
builder-needed b good small =
    finished-needed (builder_image b) b.relocations b.needed (with_notes b) refl refl
      (front-no_dynamic b) (front-OtherName b) good small
