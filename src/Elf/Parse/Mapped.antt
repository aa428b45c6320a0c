-- ===== src/Elf/Parse/Mapped.antt =====
-- Reading a slice in mapped layout: each segment holds the bytes at its place in the image.
use elfex.Common.{
  ℕ, ◌-◌, ◌≤◌, ◌<◌, ◌≡◌, refl, sym, ap, ◌∙◌, arith, Bytes, List, [], ◌∷◌, Bool-cases, inl, inr,
  ◌==◌, ==→eq, if◌then◌else◌, All, map, length, drop,
}
use elfex.Common.Outcome.{ok, u64_mod}
use elfex.Elf.{ElfImage}
use elfex.Elf.Inspect.{image_base, zero_filled}
use elfex.Elf.Parse.{
  mapped_segment_bytes, mapped_segments, compute_image_base, read_mapped_layout, read_layout,
  read_image, parse_mapped,
}
use elfex.Elf.Parse.Layouts.{offset_reader-zero, checked_len-ok}
use elfex.Elf.Parse.Lenient.{read_lenient-slice, zero_filled_full}
use elfex.Elf.Parse.Sections.{read_mapped_sections}
use elfex.Elf.Parse.Source.{max_alloc}
use elfex.Headers.{ElfHeaders, from_slice}
use elfex.Program.{ProgramHeader, Segment}
use elfex.Program.SegmentType
use elfex.Reader.{slice_reader}
use elfex.Section.{Section}

-- How many bytes of memory a header describes: its memory size, if it is loadable.
unfoldable pub loaded_size : ProgramHeader → ℕ
loaded_size header = if header.type == SegmentType.load then header.memsz else header.filesz

-- What a mapped image holds of the segment of a header: nothing for `PT_NULL`, else the bytes at
-- its distance from the base, with zeros for those that are missing.
unfoldable pub segment_mapped : Bytes → ℕ → ProgramHeader → Segment
segment_mapped bytes base header = record {
  header = header;
  bytes =
      if header.type == SegmentType.null
      then []
      else zero_filled (drop (header.vaddr - base) bytes) (loaded_size header);
}

-- An address is a `u64`, and no more is read than the image and one allocation hold.
abbrev pub IsBounded : Bytes → ProgramHeader → Type 0
IsBounded bytes header =
    (header.vaddr < u64_mod)
    × (loaded_size header ≤ length bytes)
    × (loaded_size header ≤ max_alloc)

mapped_segment_bytes-slice :
    (bytes : Bytes) (base : ℕ) (header : ProgramHeader)
    → IsBounded bytes header
    → length bytes < u64_mod
    → mapped_segment_bytes (slice_reader bytes) base header
      ≡ ok (segment_mapped bytes base header).bytes
unfolding segment_mapped mapped_segment_bytes loaded_size
mapped_segment_bytes-slice bytes base header (small, within, fits) h =
    let available = drop (header.vaddr - base) bytes in
    elim (Bool-cases (header.type == SegmentType.null)) [
      | inl null ↦ rw (null, segment_mapped, mapped_segment_bytes) refl
      | inr typed ↦ elim (Bool-cases (loaded_size header == 0)) [
        | inl empty ↦
            rw (typed, empty, segment_mapped, mapped_segment_bytes)
              (ap (λ (bs : Bytes). ok bs)
                (sym (
                  ap (zero_filled available) (==→eq (loaded_size header) 0 empty)
                  ∙ zero_filled_full available 0 (omega arith))))
        | inr full ↦
            rw
              (
                typed,
                full,
                checked_len-ok bytes (loaded_size header) within fits,
                read_lenient-slice bytes (header.vaddr - base) (loaded_size header) (omega arith) h,
                segment_mapped,
                mapped_segment_bytes,
              )
              refl
      ]
    ]

mapped_segments-slice :
    (bytes : Bytes) (base : ℕ) (headers : List ProgramHeader)
    → All (IsBounded bytes) headers
    → length bytes < u64_mod
    → mapped_segments (slice_reader bytes) base headers
      ≡ ok (map (segment_mapped bytes base) headers)
unfolding mapped_segments segment_mapped
mapped_segments-slice bytes base [] bounded h = refl
mapped_segments-slice bytes base (header ∷ headers) bounded h =
    rw
      (
        mapped_segment_bytes-slice bytes base header bounded.0 h,
        mapped_segments-slice bytes base headers bounded.1 h,
      )
      refl

-- Parsing a mapped image shorter than 2^64 bytes gives its headers, and each segment the bytes at
-- its address less the base of the loadable segments, with zeros for what the image lacks: if the
-- structural headers can be read, no segment is larger than the image or the limit of 256 MiB,
-- addresses are below 2^64, and the sections are those that their reader returns.
pub parse_mapped-from_slice :
    (bytes : Bytes) (headers : ElfHeaders) (sections : List Section)
    → length bytes < u64_mod
    → from_slice bytes ≡ ok headers
    → All (IsBounded bytes) headers.program_headers
    → read_mapped_sections (slice_reader bytes) headers (compute_image_base headers.program_headers)
      ≡ ok sections
    → parse_mapped bytes ≡ (
        let image : ElfImage = record {
          ident = headers.ident;
          header = headers.header;
          segments =
              map
                (segment_mapped bytes (compute_image_base headers.program_headers))
                headers.program_headers;
          sections = sections;
          runtime_base = 0;
        } in
        ok (record image { runtime_base = image_base image }))
unfolding parse_mapped from_slice read_image read_layout read_mapped_layout
parse_mapped-from_slice bytes headers sections h e bounded s =
    rw
      (
        offset_reader-zero bytes h,
        e,
        mapped_segments-slice bytes (compute_image_base headers.program_headers)
            headers.program_headers bounded h,
        s,
        read_image,
        read_layout,
        read_mapped_layout,
      )
      refl
