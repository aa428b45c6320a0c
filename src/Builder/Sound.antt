-- ===== src/Builder/Sound.antt =====
-- The image of a builder that is asked nothing out of range is regular.
use elfex.Builder.Suited.{
  FitsNote, Suits, IsSoundSegment, IsSoundSection, loads-IsSound, tls-IsSound, note-IsSound,
  dynamic-IsSound,
}
use elfex.Builder.SoundSections.{
  null-IsSound, note_section-IsSound, dynstr-IsSound, dynamic_section-IsSound, rela-IsSound,
}
use elfex.Common.Pairwise.{All-map}
use elfex.Builder.{
  ElfBuilder, load_segment, tls_segments, builder_parts, builder_image, builder_ident,
  builder_header,
}
use elfex.Builder.Contents.{add_notes-segments, add_notes-sections}
use elfex.Builder.Inspected.{start, with_notes, rela-segments}
use elfex.Builder.Pieces.{
  Parts, note_segment, note_section, add_rela, name_strings, name_offsets, dynamic_bytes,
  add_dynamic,
}
use elfex.Builder.Serialize.{serialize_note, serialize_rela}
use elfex.Common.{subst, ◌<◌, refl, sym, arith, Bytes, List, [], ◌∷◌, All, All-append, map, length}
use elfex.Elf.Build.DerivedTables.{IsHonest}
use elfex.Elf.Parse.Whole.{IsWhole}
use elfex.Elf.Regular.{IsRegular, IsRegularImage}
use elfex.Ident.ElfClass.{ElfClass}
use elfex.Ident.Endian.{Endian}
use elfex.Program.RoundTrip as ProgramTrip
use elfex.Reloc.{RelocationEntry}

add_dynamic-IsSound :
    (names : List Bytes) (e : Endian) (class : ElfClass) (p : Parts)
    → length (name_strings (0 ∷ []) names) < 0x100000000
    → length
        (dynamic_bytes (name_offsets (0 ∷ []) names) (length (name_strings (0 ∷ []) names)) e class)
      < 0x100000000
    → All (IsSoundSegment class) p.segments
    → All (IsSoundSection class) p.sections
    → All (IsSoundSegment class) (add_dynamic names e class p).segments
      × All (IsSoundSection class) (add_dynamic names e class p).sections
unfolding add_dynamic
add_dynamic-IsSound [] e class p a b h k = (h, k)
add_dynamic-IsSound (n ∷ names) e class p a b h k = (
  All-append (IsSoundSegment class) p.segments _ h (dynamic-IsSound class _ b, tt),
  All-append (IsSoundSection class) p.sections _ k
      (dynstr-IsSound class _ a, (dynamic_section-IsSound class _ b, tt)),
)

add_rela-IsSound :
    (entries : List RelocationEntry) (e : Endian) (class : ElfClass) (p : Parts)
    → length (serialize_rela entries e class) < 0x100000000
    → All (IsSoundSection class) p.sections
    → All (IsSoundSection class) (add_rela entries e class p).sections
unfolding add_rela
add_rela-IsSound [] e class p a k = k
add_rela-IsSound (r ∷ entries) e class p a k =
    All-append (IsSoundSection class) p.sections _ k (rela-IsSound class (r ∷ entries) e a, tt)

module _ (b : ElfBuilder) (s : Suits b) where
  notes-segments : All (IsSoundSegment b.class) (with_notes b).segments
  notes-segments =
      add_notes-segments (IsSoundSegment b.class) b.notes b.encoding (start b)
        (All-append (IsSoundSegment b.class) (map load_segment b.loads) (tls_segments b.tls)
          (loads-IsSound b.class b.loads s.loads) (tls-IsSound b.class b.tls s.tls))
        (All-map {P = FitsNote b.encoding}
          {Q = λ n. IsSoundSegment b.class (note_segment (serialize_note n b.encoding))}
          (λ n f. note-IsSound b.class (serialize_note n b.encoding) f.size_lt) b.notes s.notes)

  notes-sections : All (IsSoundSection b.class) (with_notes b).sections
  notes-sections =
      add_notes-sections (IsSoundSection b.class) b.notes b.encoding (start b)
        (null-IsSound b.class, tt)
        (All-map {P = FitsNote b.encoding}
          {Q = λ n. IsSoundSection b.class (note_section n.name (serialize_note n b.encoding))}
          (λ n f.
            note_section-IsSound b.class n.name (serialize_note n b.encoding) f.name f.size_lt)
          b.notes s.notes)

  builder_parts-IsSound :
      All (IsSoundSegment b.class) (builder_parts b).segments
      × All (IsSoundSection b.class) (builder_parts b).sections
  unfolding builder_parts
  builder_parts-IsSound =
      let p = add_dynamic b.needed b.encoding b.class (with_notes b) in
      let both =
        add_dynamic-IsSound b.needed b.encoding b.class (with_notes b) s.strings_lt s.dynamic_lt
          notes-segments notes-sections in
      (
        subst (All (IsSoundSegment b.class))
            (sym (rela-segments b.relocations b.encoding b.class p)) both.0,
        add_rela-IsSound b.relocations b.encoding b.class p s.rela_lt both.1,
      )

  pub builder-IsRegularImage : IsRegularImage (builder_image b)
  unfolding builder_image builder_ident builder_header
  builder-IsRegularImage =
      let parts = builder_parts-IsSound in
      record {
        ident = refl;
        header = omega (arith, s);
        segments =
            All-map {P = IsSoundSegment b.class} {Q = λ x. ProgramTrip.IsTyped x.header}
              (λ x h. h.typed) (builder_parts b).segments parts.0;
        fits =
            All-map {P = IsSoundSegment b.class} {Q = λ x. ProgramTrip.FitsClass b.class x.header}
              (λ x h. h.fits) (builder_parts b).segments parts.0;
        sections =
            All-map {P = IsSoundSection b.class} {Q = IsRegular b.class} (λ x h. h.regular)
              (builder_parts b).sections parts.1;
      }

  pub builder-IsWhole : All IsWhole (builder_image b).segments
  unfolding builder_image
  builder-IsWhole =
      All-map {P = IsSoundSegment b.class} {Q = IsWhole}
        (λ x h. record { null = λ z. absurd (h.typed_nonnull z); full = λ z. h.full })
        (builder_parts b).segments builder_parts-IsSound.0

  pub builder-IsHonest : All IsHonest (builder_image b).sections
  unfolding builder_image
  builder-IsHonest =
      All-map {P = IsSoundSection b.class} {Q = IsHonest}
        (λ x h nobits. absurd (let e = h.bits in cc)) (builder_parts b).sections
        builder_parts-IsSound.1
