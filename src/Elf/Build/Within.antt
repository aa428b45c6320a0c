-- ===== src/Elf/Build/Within.antt =====
-- What the loops and tables of the serializer take at most.
use elfex.Common.{
  ℕ, ◌+◌, ◌*◌, ◌≤◌, ◌≡◌, refl, ◌∙◌, arith, Bytes, List, [], ◌∷◌, inl, inr, ◌==◌, Bool-cases, length,
  take, max, ◌++◌, concat, length-append,
}
use elfex.Common.Outcome.{Outcome, ok}
use elfex.Elf.{align_up}
use elfex.Elf.Align.{align_up_least}
use elfex.Elf.Build.{
  Placed, writable, segment_offset, place_segment, place_segments, place_section, place_sections,
  build_sections, write_section_table, finish_sections,
}
use elfex.Elf.Build.Buffer.{write_at-ok}
use elfex.Elf.Build.Congruence.{congruent-lt}
use elfex.Elf.Build.Output.{max_image}
use elfex.Elf.Build.Stored.{named}
use elfex.Elf.Build.Segments.{length-writable}
use elfex.Program.{Segment}
use elfex.Program.SegmentType
use elfex.Section
use elfex.Ident.ElfClass.{ElfClass, elf32, elf64}
use elfex.Ident.Endian.{Endian}
use elfex.Ident.Words.{length-word_bytes}
use elfex.Section.{Section, SectionHeader, header_size, is_nobits}

-- What a segment takes at most: its bytes, and the way to a congruent offset.
abbrev pub segment_cost : Segment → ℕ
segment_cost s = max s.header.align 1 + writable s

abbrev pub segments_cost : List Segment → ℕ
segments_cost [] = 0
segments_cost (s ∷ ss) = segment_cost s + segments_cost ss

abbrev pub section_cost : Section → ℕ
section_cost s = max s.header.addralign 1 + length s.bytes

abbrev pub sections_cost : List Section → ℕ
sections_cost [] = 0
sections_cost (s ∷ ss) = section_cost s + sections_cost ss

-- A step succeeds and moves the cursor by no more than a cost.
abbrev Within : {A : Type 0} → Outcome (A × Bytes × ℕ) → ℕ → Type 0
Within {A} o end = (r : A × Bytes × ℕ) × (o ≡ ok r) × (r.2 ≤ end)

segment_offset-le :
    (cursor : ℕ) (s : Segment)
    → cursor + segment_cost s ≤ max_image
    → segment_offset cursor s + writable s ≤ cursor + segment_cost s
unfolding segment_offset
segment_offset-le cursor s h = elim (Bool-cases (s.header.type == SegmentType.load)) [
  | inl load ↦ rw load (
      omega (
        arith,
        congruent-lt cursor s.header.vaddr (max s.header.align 1) (omega arith) (omega arith),
      ))
  | inr other ↦
      rw other (omega (arith, congruent-lt cursor s.header.vaddr 1 (omega arith) (omega arith)))
]

place_segment-Within :
    (out : Bytes) (cursor : ℕ) (s : Segment)
    → cursor + segment_cost s ≤ max_image
    → Within (place_segment out cursor s) (cursor + segment_cost s)
unfolding place_segment
place_segment-Within out cursor s h = elim (Bool-cases (writable s == 0)) [
  | inl none' ↦ rw none' (_, refl, omega arith)
  | inr some' ↦
      let le = segment_offset-le cursor s h in
      rw
        (
          some',
          write_at-ok out (segment_offset cursor s) (take (writable s) s.bytes)
              (omega (arith, length-writable s)),
        )
        (_, refl, le)
]

pub place_segments-Within :
    (out : Bytes) (cursor : ℕ) (ss : List Segment)
    → cursor + segments_cost ss ≤ max_image
    → Within (place_segments out cursor ss) (cursor + segments_cost ss)
unfolding place_segments
place_segments-Within out cursor [] h = (_, refl, omega arith)
place_segments-Within out cursor (s ∷ ss) h =
    let (one, first, le) = place_segment-Within out cursor s (omega arith) in
    let (more, second, le') = place_segments-Within one.1 one.2 ss (omega (arith, le)) in
    rw (first, second) (_, refl, omega (arith, le, le'))

place_section-Within :
    (out : Bytes) (cursor : ℕ) (s : Section)
    → cursor + section_cost s ≤ max_image
    → Within (place_section out cursor s) (cursor + section_cost s)
unfolding place_section
place_section-Within out cursor s h = elim (Bool-cases (is_nobits s.header)) [
  | inl no_bits ↦ rw no_bits (_, refl, omega arith)
  | inr bits ↦ elim (Bool-cases (length s.bytes == 0)) [
    | inl none' ↦ rw (bits, none') (_, refl, omega arith)
    | inr some' ↦
        let up = (align_up_least cursor (max s.header.addralign 1) (omega arith) (omega arith)).2 in
        rw
          (
            bits,
            some',
            write_at-ok out (align_up cursor (max s.header.addralign 1)) s.bytes
                (omega (arith, up)),
          )
          (_, refl, omega (arith, up))
  ]
]

place_sections-Within :
    (out : Bytes) (cursor : ℕ) (ss : List Section)
    → cursor + sections_cost ss ≤ max_image
    → (r : List Section × Bytes × ℕ) × (place_sections out cursor ss ≡ ok r)
      × (r.2 ≤ cursor + sections_cost ss)
      × (length r.0 ≡ length ss)
unfolding place_sections
place_sections-Within out cursor [] h = (_, refl, omega arith, refl)
place_sections-Within out cursor (s ∷ ss) h =
    let (one, first, le) = place_section-Within out cursor s (omega arith) in
    let (more, second, le', count) = place_sections-Within one.1 one.2 ss (omega (arith, le)) in
    rw (first, second) (_, refl, omega (arith, le, le'), omega (arith, count))

pub build_sections-Within :
    (out : Bytes) (cursor : ℕ) (ss : List Section)
    → cursor + sections_cost (named ss) ≤ max_image
    → (p : Placed) × (build_sections out cursor ss ≡ ok p)
      × (p.cursor ≤ cursor + sections_cost (named ss))
      × (length p.sections ≡ length (named ss))
unfolding build_sections
build_sections-Within out cursor [] h = (_, refl, omega arith, refl)
build_sections-Within out cursor (s ∷ ss) h =
    let (r, placed, le, count) = place_sections-Within out cursor (named (s ∷ ss)) h in
    rw placed (_, refl, le, count)

pub length-section_fields :
    (h : SectionHeader) (e : Endian) (class : ElfClass)
    → length (concat (Section.fields h e class)) ≡ header_size class
unfolding Section.fields header_size
length-section_fields h e elf32 = simp (length-append, length-word_bytes)
length-section_fields h e elf64 = simp (length-append, length-word_bytes)

length-write_section_table :
    (ss : List Section) (out : Bytes) (e : Endian) (class : ElfClass)
    → length (write_section_table ss out e class) ≡ length out + header_size class * length ss
unfolding write_section_table Section.write
length-write_section_table [] out e class = omega arith
length-write_section_table (s ∷ ss) out e class =
    length-write_section_table ss (out ++ concat (Section.fields s.header e class)) e class
    ∙ grind (
      arith,
      length-append out (concat (Section.fields s.header e class)),
      length-section_fields s.header e class,
    )

pub finish_sections-ok :
    (p : Placed) (out : Bytes) (e : Endian) (class : ElfClass)
    → p.cursor + 8 + header_size class * length p.sections ≤ max_image
    → (r : Bytes × ℕ) × (finish_sections p out e class ≡ ok r)
unfolding finish_sections
finish_sections-ok p out e class h = elim (Bool-cases (length p.sections == 0)) [
  | inl none' ↦ rw none' (_, refl)
  | inr some' ↦
      let up = (align_up_least p.cursor 8 (omega arith) (omega arith)).2 in
      let size = length-write_section_table p.sections [] e class in
      rw
        (
          some',
          write_at-ok out (align_up p.cursor 8) (write_section_table p.sections [] e class)
              (omega (arith, up, size)),
        )
        (_, refl)
]
