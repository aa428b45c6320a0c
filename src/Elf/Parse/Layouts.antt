-- ===== src/Elf/Parse/Layouts.antt =====
-- Reading a slice in file layout: each segment holds the bytes of the file that its header names.
use elfex.Common.{
  ℕ, ◌+◌, ◌≤◌, ◌<◌, ◌≡◌, refl, sym, ap, ap₂, arith, Bytes, List, [], ◌∷◌, Option, none, some,
  Bool-cases, le-cases, inl, inr, ◌==◌, ==→eq, ==→ne, if◌then◌else◌, All, map, length, take, drop,
  min, ge→ltb, le→leb, ◌≢◌,
}
use elfex.Common.Outcome.{Outcome, ok, u64_mod, checked_add, checked_add-some}
use elfex.Common.Slices.{get_from-none}
use elfex.Elf.{ElfImage}
use elfex.Elf.Inspect.{image_base}
use elfex.Elf.Parse.{
  file_segment_bytes, file_segments, read_file_layout, read_layout, read_image, parse,
}
use elfex.Elf.Parse.Sections.{read_file_sections}
use elfex.Elf.Parse.Source.{checked_len, max_alloc, offset_reader, offset_read_at}
use elfex.Headers.{ElfHeaders, from_slice}
use elfex.Program.{ProgramHeader, Segment}
use elfex.Program.SegmentType
use elfex.Reader.{read_bytes_at, slice_reader, slice_read_at}
use elfex.Reader.Slice.{read_exact_at-slice}
use elfex.Section.{Section}
use mathlib.Core.Path.{fun_ext}

-- The range lies in the file, and is no larger than one allocation may be.
abbrev pub InFile : Bytes → ℕ → ℕ → Type 0
InFile bytes offset n = (offset + n ≤ length bytes) × (n ≤ max_alloc)

checked_add_zero_none : (offset : ℕ) → u64_mod ≤ offset → checked_add 0 offset ≡ none
unfolding checked_add
checked_add_zero_none offset h = rw (ge→ltb (0 + offset) u64_mod (omega (arith, h))) refl

offset_read_at-zero :
    (bytes : Bytes) (offset : ℕ) (buf : Bytes)
    → length bytes < u64_mod
    → offset_read_at (slice_reader bytes) 0 offset buf ≡ slice_read_at bytes offset buf
unfolding offset_read_at slice_read_at
offset_read_at-zero bytes offset buf h = elim (le-cases u64_mod offset) [
  | inl big ↦
      rw
        (
          checked_add_zero_none offset big,
          get_from-none bytes offset (omega (arith, h, big)),
          offset_read_at,
          slice_read_at,
        )
        refl
  | inr small ↦
      rw (checked_add-some 0 offset (omega (arith, small)), offset_read_at)
        (ap (λ o. slice_read_at bytes o buf) (omega arith))
]

-- A reader that is shifted by nothing reads as the slice does.
pub offset_reader-zero :
    (bytes : Bytes)
    → length bytes < u64_mod
    → offset_reader (slice_reader bytes) 0 ≡ slice_reader bytes
offset_reader-zero bytes h =
    ap₂ (λ (r : ℕ → Bytes → Bytes × Outcome ℕ) (s : Option ℕ). record { read_at = r; size = s })
      (fun_ext (λ offset. fun_ext (λ buf. offset_read_at-zero bytes offset buf h)))
      (ap some (omega arith))

pub read_bytes_at-slice :
    (bytes : Bytes) (offset n : ℕ)
    → InFile bytes offset n
    → length bytes < u64_mod
    → read_bytes_at (slice_reader bytes) offset n ≡ ok (take n (drop offset bytes))
unfolding read_bytes_at
read_bytes_at-slice bytes offset n i h =
    rw (le→leb n 0x7fffffffffffffff (omega (arith, i.1)))
      (read_exact_at-slice bytes offset n (omega (arith, i.0)) h)

pub checked_len-ok :
    (bytes : Bytes) (n : ℕ)
    → n ≤ length bytes
    → n ≤ max_alloc
    → checked_len n (some (length bytes)) ≡ ok n
unfolding checked_len
checked_len-ok bytes n a b = rw (ge→ltb (min (length bytes) max_alloc) n (omega (arith, a, b))) refl

-- What the file holds of the segment of a header: nothing for `PT_NULL`, else the range it names.
unfoldable pub segment_in : Bytes → ProgramHeader → Segment
segment_in bytes header = record {
  header = header;
  bytes =
      if header.type == SegmentType.null then [] else take header.filesz (drop header.offset bytes);
}

-- The range that a header names lies in the file, where it names one.
abbrev pub IsPlaced : Bytes → ProgramHeader → Type 0
IsPlaced bytes header =
    header.type ≢ SegmentType.null → header.filesz ≢ 0 → InFile bytes header.offset header.filesz

file_segment_bytes-slice :
    (bytes : Bytes) (header : ProgramHeader)
    → IsPlaced bytes header
    → length bytes < u64_mod
    → file_segment_bytes (slice_reader bytes) header ≡ ok (segment_in bytes header).bytes
unfolding segment_in file_segment_bytes
file_segment_bytes-slice bytes header placed h =
    elim (Bool-cases (header.type == SegmentType.null)) [
      | inl null ↦ rw (null, segment_in, file_segment_bytes) refl
      | inr typed ↦ elim (Bool-cases (header.filesz == 0)) [
        | inl empty ↦
            rw (typed, empty, segment_in, file_segment_bytes)
              (ap (λ n. ok (take n (drop header.offset bytes))) (sym (==→eq header.filesz 0 empty)))
        | inr full ↦
            let range = placed (==→ne _ _ typed) (==→ne _ _ full) in
            rw
              (
                typed,
                full,
                checked_len-ok bytes header.filesz (omega (arith, range.0)) range.1,
                read_bytes_at-slice bytes header.offset header.filesz range h,
                segment_in,
                file_segment_bytes,
              )
              refl
      ]
    ]

file_segments-slice :
    (bytes : Bytes) (headers : List ProgramHeader)
    → All (IsPlaced bytes) headers
    → length bytes < u64_mod
    → file_segments (slice_reader bytes) headers ≡ ok (map (segment_in bytes) headers)
unfolding file_segments segment_in
file_segments-slice bytes [] placed h = refl
file_segments-slice bytes (header ∷ headers) placed h =
    rw
      (
        file_segment_bytes-slice bytes header placed.0 h,
        file_segments-slice bytes headers placed.1 h,
      )
      refl

-- Parsing a file shorter than 2^64 bytes gives its headers, and each segment the bytes that its
-- header names: if the structural headers can be read, the range of every header with file bytes
-- lies in the file and within the limit of 256 MiB, and the sections can be read.
pub parse-from_slice :
    (bytes : Bytes) (headers : ElfHeaders) (sections : List Section)
    → length bytes < u64_mod
    → from_slice bytes ≡ ok headers
    → All (IsPlaced bytes) headers.program_headers
    → read_file_sections (slice_reader bytes) headers ≡ ok sections
    → parse bytes ≡ (
        let image : ElfImage = record {
          ident = headers.ident;
          header = headers.header;
          segments = map (segment_in bytes) headers.program_headers;
          sections = sections;
          runtime_base = 0;
        } in
        ok (record image { runtime_base = image_base image }))
unfolding parse from_slice read_image read_layout read_file_layout
parse-from_slice bytes headers sections h e placed s =
    rw
      (
        offset_reader-zero bytes h,
        e,
        file_segments-slice bytes headers.program_headers placed h,
        s,
        read_image,
        read_layout,
        read_file_layout,
      )
      refl
