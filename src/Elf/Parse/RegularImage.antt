-- ===== src/Elf/Parse/RegularImage.antt =====
-- An image that is read from a source of bytes is regular, in file layout and in mapped layout.
use elfex.Common.{ℕ, ◌≡◌, refl, Bytes, List, [], ◌∷◌, Option-cases, inl, inr, if◌then◌else◌, All}
use elfex.Common.Gives.{Gives, Gives-ok, Gives-bind, Gives-any, Gives-handle}
use elfex.Common.Pairwise.{All-map}
use elfex.Common.Outcome.{ok, checked_add}
use elfex.Elf.{ElfImage}
use elfex.Elf.Parse.{
  Layout, file, mapped, file_segments, read_file_layout, read_layout, mapped_segments,
  read_mapped_layout, read_image, compute_image_base,
}
use elfex.Elf.Parse.Regular.{
  SegmentIsRead, name_in-IsName, read_section_headers-IsRead, read_file_sections-IsRegular,
  file_segments-IsRead, mapped_segments-IsRead,
}
use elfex.Elf.Parse.Sections.{
  read_section_headers, read_file_sections, mapped_start, mapped_names, mapped_sections_loop,
  read_mapped_sections,
}
use elfex.Elf.Parse.Source.{checked_alloc, offset_reader, offset_read_at, read_lenient}
use elfex.Elf.Regular.{IsRegular, IsRegularImage}
use elfex.Header.Typed.{FitsClass}
use elfex.Headers.{ElfHeaders, read_from}
use elfex.Headers.Typed.{AreRead, read_from-AreRead}
use elfex.Ident.ElfClass.{ElfClass}
use elfex.Program.{Segment}
use elfex.Program.RoundTrip as ProgramTrip
use elfex.Reader.{ReadAt}
use elfex.Reader.Total.{Answers}
use elfex.Reader.Typed.{Honest}
use elfex.Section.{Section, SectionHeader, is_nobits}
use elfex.Section.Typed as SectionTyped

-- An image is regular, and its file header has addresses in the range of the class.
abbrev IsReadImage : ElfImage → Type 0
IsReadImage image = IsRegularImage image × FitsClass image.ident.class image.header

pub offset_reader-Answers :
    (reader : ReadAt) (base : ℕ) → Answers reader → Answers (offset_reader reader base)
unfolding offset_read_at
offset_reader-Answers reader base a = record {
  returns = λ offset buf. elim (Option-cases (checked_add base offset)) [
    | inl over ↦ rw (over, offset_read_at) (λ e. cc)
    | inr (shifted, at) ↦ rw (at, offset_read_at) (a.returns shifted buf)
  ];
  keeps = λ offset buf. elim (Option-cases (checked_add base offset)) [
    | inl over ↦ rw (over, offset_read_at) refl
    | inr (shifted, at) ↦ rw (at, offset_read_at) (a.keeps shifted buf)
  ];
}

offset_reader-Honest :
    (reader : ReadAt) (base : ℕ) → Honest reader → Honest (offset_reader reader base)
unfolding offset_read_at
offset_reader-Honest reader base h = record {
  answers = offset_reader-Answers reader base h.answers;
  bytes = λ offset buf b. elim (Option-cases (checked_add base offset)) [
    | inl over ↦ rw (over, offset_read_at) b
    | inr (shifted, at) ↦ rw (at, offset_read_at) (h.bytes shifted buf b)
  ];
}

module _ (reader : ReadAt) (honest : Honest reader) where
  mapped_sections_loop-IsRegular :
      (class : ElfClass) (strtab : Bytes) (base : ℕ) (raw : List SectionHeader)
      → All (SectionTyped.IsRead class) raw
      → Gives (All (IsRegular class)) (mapped_sections_loop reader strtab base raw)
  unfolding mapped_sections_loop
  mapped_sections_loop-IsRegular class strtab base [] h = Gives-ok tt
  mapped_sections_loop-IsRegular class strtab base (header ∷ raw) h =
      let rest = mapped_sections_loop-IsRegular class strtab base raw h.1 in
      Gives-handle (checked_alloc (if is_nobits header then 0 else header.size) reader.size) _
        (mapped_sections_loop reader strtab base raw) Gives-any
        (λ zeros a.
          Gives-bind (read_lenient reader (mapped_start base header) zeros) Gives-any (λ bytes b.
            Gives-bind (mapped_sections_loop reader strtab base raw) rest (λ sections s.
              Gives-ok
                (record { typed = h.0.0; fits = h.0.1; name = name_in-IsName strtab header }, s))))
        rest

  read_mapped_sections-IsRegular :
      (headers : ElfHeaders) (base : ℕ)
      → Gives (All (IsRegular headers.ident.class)) (read_mapped_sections reader headers base)
  unfolding read_mapped_sections
  read_mapped_sections-IsRegular headers base =
      Gives-handle (read_section_headers reader headers) _ (ok [])
        (read_section_headers-IsRead reader honest headers)
        (λ raw h.
          Gives-bind (mapped_names reader headers raw base) Gives-any
            (λ strtab a. mapped_sections_loop-IsRegular headers.ident.class strtab base raw h))
        (Gives-ok tt)

  layout-IsReadImage :
      (headers : ElfHeaders) (segments : List Segment) (sections : List Section)
      → AreRead headers
      → All (SegmentIsRead headers.ident.class) segments
      → All (IsRegular headers.ident.class) sections
      → IsReadImage (record {
        ident = headers.ident;
        header = headers.header;
        segments = segments;
        sections = sections;
        runtime_base = 0;
      })
  layout-IsReadImage headers segments sections a s t = (
    record {
      ident = a.ident;
      header = a.header;
      segments =
          All-map {P = (SegmentIsRead headers.ident.class)}
            {Q = (λ (x : Segment). ProgramTrip.IsTyped x.header)} (λ x r. r.0) segments s;
      fits =
          All-map {P = (SegmentIsRead headers.ident.class)}
            {Q = (λ (x : Segment). ProgramTrip.FitsClass headers.ident.class x.header)} (λ x r. r.1)
            segments s;
      sections = t;
    },
    a.header_fits,
  )

  read_layout-IsReadImage : (layout : Layout) → Gives IsReadImage (read_layout reader layout)
  unfolding read_layout read_file_layout read_mapped_layout
  read_layout-IsReadImage file =
      Gives-bind (read_from reader) (read_from-AreRead reader honest) (λ headers a.
        Gives-bind (file_segments reader headers.program_headers)
          (file_segments-IsRead reader honest headers.ident.class headers.program_headers a.table)
          (λ segments s.
            Gives-bind (read_file_sections reader headers)
              (read_file_sections-IsRegular reader honest headers)
              (λ sections t. Gives-ok (layout-IsReadImage headers segments sections a s t))))
  read_layout-IsReadImage mapped =
      Gives-bind (read_from reader) (read_from-AreRead reader honest) (λ headers a.
        let base = compute_image_base headers.program_headers in
        Gives-bind (mapped_segments reader base headers.program_headers)
          (mapped_segments-IsRead reader honest headers.ident.class base headers.program_headers
            a.table)
          (λ segments s.
            Gives-bind (read_mapped_sections reader headers base)
              (read_mapped_sections-IsRegular headers base)
              (λ sections t. Gives-ok (layout-IsReadImage headers segments sections a s t))))

-- Whatever the source is, if it answers, keeps the length of the buffer it is lent and puts only
-- bytes into it, an image that is read from it, at any offset and in either layout, is regular: the
-- two copies of its identification agree, every field of its file header, of its segments' headers
-- and of its sections' headers is in the range of its type, those of them that the class stores in
-- 32 bits fit there, and the names of its sections are UTF-8 without a zero byte.
pub read_image-IsRegularImage :
    (reader : ReadAt) (base_offset : ℕ) (layout : Layout) {image : ElfImage}
    → Honest reader
    → read_image reader base_offset layout ≡ ok image
    → IsRegularImage image × FitsClass image.ident.class image.header
unfolding read_image
read_image-IsRegularImage reader base_offset layout {image} honest h =
    let shifted = offset_reader-Honest reader base_offset honest in
    let step : Gives IsReadImage (read_image reader base_offset layout) =
      Gives-bind (read_layout (offset_reader reader base_offset) layout)
        (read_layout-IsReadImage (offset_reader reader base_offset) shifted layout)
        (λ read r. Gives-ok (
          record {
            ident = r.0.ident;
            header = r.0.header;
            segments = r.0.segments;
            fits = r.0.fits;
            sections = r.0.sections;
          },
          r.1,
        )) in
    step.holds image h
