-- ===== src/Elf/Parse/Whole.antt =====
-- The segments of a parsed file have all the bytes that their headers declare.
use elfex.Common.{
  ℕ, Option, ==→ne, ◌≡◌, ◌≢◌, refl, sym, subst, Bytes, List, [], ◌∷◌, inl, inr, ◌==◌, leb, not,
  Bool-cases, ==→eq, All, length,
}
use elfex.Common.Gives.{Gives, Gives-ok, Gives-bind, Gives-any, Gives-weaken}
use elfex.Common.Outcome.{ok, ◌>>=◌, reject_if}
use elfex.Elf.{ElfImage}
use elfex.Elf.Parse.{
  file_segment_bytes, file_segments, read_file_layout, read_layout, read_image, parse,
}
use elfex.Elf.Parse.RegularImage.{offset_reader-Answers}
use elfex.Elf.Parse.Sections.{read_file_sections}
use elfex.Elf.Parse.Source.{checked_len, offset_reader}
use elfex.Headers.{read_from}
use elfex.Program.{ProgramHeader, Segment}
use elfex.Program.SegmentType
use elfex.Reader.{ReadAt, read_bytes_at, slice_reader}
use elfex.Reader.Typed.{read_zeros-length}
use elfex.Reader.Total.{Answers, slice_reader-Answers}

-- A segment has the number of bytes that its header declares, or none if its type is null.
pub record IsWhole (s : Segment) : Type 0 where
  pub null : s.header.type ≡ SegmentType.null → s.bytes ≡ []
  pub full : s.header.type ≢ SegmentType.null → length s.bytes ≡ s.header.filesz

checked_len-same : (n : ℕ) (size : Option ℕ) → Gives (λ (len : ℕ). len ≡ n) (checked_len n size)
unfolding checked_len
checked_len-same n size = Gives-bind (reject_if _ _) Gives-any (λ u a. Gives-ok refl)

module _ (reader : ReadAt) (answers : Answers reader) where
  read_bytes_at-length :
      (offset n : ℕ) → Gives (λ (b : Bytes). length b ≡ n) (read_bytes_at reader offset n)
  unfolding read_bytes_at
  read_bytes_at-length offset n =
      Gives-bind (reject_if (not (leb n 0x7fffffffffffffff)) _) Gives-any
        (λ u a. record { holds = λ b e. (read_zeros-length reader offset n answers).holds b e })

  checked_read-length :
      (offset n : ℕ)
      → Gives
          (λ (b : Bytes). length b ≡ n)
          (checked_len n reader.size >>= λ len. read_bytes_at reader offset len)
  unfolding checked_len
  checked_read-length offset n =
      Gives-bind (checked_len n reader.size) (checked_len-same n reader.size) (λ len e.
        subst (λ (k : ℕ). Gives (λ (b : Bytes). length b ≡ k) (read_bytes_at reader offset len)) e
          (read_bytes_at-length offset len))

  file_segment_bytes-IsWhole :
      (header : ProgramHeader)
      → Gives
          (λ (b : Bytes). IsWhole (record { header = header; bytes = b }))
          (file_segment_bytes reader header)
  unfolding file_segment_bytes
  file_segment_bytes-IsWhole header = elim (Bool-cases (header.type == SegmentType.null)) [
    | inl null ↦
        rw (null, file_segment_bytes)
          (Gives-ok (record { null = λ e. refl; full = λ other. absurd (other (==→eq _ _ null)) }))
    | inr other ↦ elim (Bool-cases (header.filesz == 0)) [
      | inl none' ↦
          rw (other, none', file_segment_bytes)
            (Gives-ok (record { null = λ e. refl; full = λ k. sym (==→eq header.filesz 0 none') }))
      | inr some' ↦
          rw (other, some', file_segment_bytes)
            (Gives-weaken (checked_read-length header.offset header.filesz)
              (λ b e. record { null = λ null. absurd (==→ne _ _ other null); full = λ k. e }))
    ]
  ]

  file_segments-IsWhole :
      (headers : List ProgramHeader) → Gives (All IsWhole) (file_segments reader headers)
  unfolding file_segments
  file_segments-IsWhole [] = Gives-ok tt
  file_segments-IsWhole (header ∷ headers) =
      Gives-bind (file_segment_bytes reader header) (file_segment_bytes-IsWhole header) (λ bytes h.
        Gives-bind (file_segments reader headers) (file_segments-IsWhole headers)
          (λ segments hs. Gives-ok (h, hs)))

  read_file_layout-IsWhole :
      Gives (λ (image : ElfImage). All IsWhole image.segments) (read_file_layout reader)
  unfolding read_file_layout
  read_file_layout-IsWhole = Gives-bind (read_from reader) Gives-any (λ headers a.
      Gives-bind (file_segments reader headers.program_headers)
        (file_segments-IsWhole headers.program_headers)
        (λ segments s.
          Gives-bind (read_file_sections reader headers) Gives-any (λ sections t. Gives-ok s)))

pub parse-IsWhole :
    (bytes : Bytes) {image : ElfImage} → parse bytes ≡ ok image → All IsWhole image.segments
unfolding parse read_image read_layout
parse-IsWhole bytes {image} e =
    let reader = offset_reader (slice_reader bytes) 0 in
    let answers = offset_reader-Answers (slice_reader bytes) 0 (slice_reader-Answers bytes) in
    let step : Gives (λ (x : ElfImage). All IsWhole x.segments) (parse bytes) =
      Gives-bind (read_file_layout reader) (read_file_layout-IsWhole reader answers)
        (λ read r. Gives-ok r) in
    step.holds image e
