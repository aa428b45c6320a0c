-- ===== src/Elf/Build/Outcomes.antt =====
-- The outcomes of the serializer: an error, a panic, or the bytes.
use elfex.Common.{
  ℕ, ◌*◌, ◌≤◌, ◌≡◌, ◌≢◌, refl, ap, ◌∙◌, arith, Bytes, List, [], ◌∷◌, inl, inr, Bool, true, false,
  not, ltb, le→leb, ◌==◌, Bool-cases, ==→ne, ==→eq, length, take, replicate, max, ◌⊎◌,
}
use elfex.Common.Outcome.{
  Outcome, Error, ErrorKind, ok, err, panic, stuck, ◌>>=◌, ◌>>◌, reject_if, generic,
}
use elfex.Elf.{ElfImage, align_up}
use elfex.Elf.Build.{
  Placed, writable, segment_offset, place_segment, place_segments, place_section, place_sections,
  build_sections, write_section_table, final_header, finish_sections, try_build,
}
use elfex.Elf.Build.Buffer.{write_at-Wrote, write_at_bounds}
use elfex.Elf.Build.Finish.{build_sections-Sectioned, finish_sections-Finished, length-write_table}
use elfex.Elf.Build.Names.{ensure_shstrtab, assign_name_offsets}
use elfex.Elf.Build.Output.{max_image, write_at, copy_head}
use elfex.Elf.Build.Placing.{place_segments-AllMoved, place_segments-length}
use elfex.Elf.Build.Serialized.{written_header, table_end}
use elfex.Header
use elfex.Header.{ElfHeader}
use elfex.Headers.RoundTrip.{length-fields}
use elfex.Headers.Table.{write_table}
use elfex.Ident.{to_bytes}
use elfex.Program
use elfex.Program.{ProgramHeader, Segment}
use elfex.Section.{Section, is_nobits}
use elfex.Ident.ElfClass.{ElfClass}
use elfex.Ident.Endian.{Endian}

-- A function returns a value or an error.
abbrev pub Settled {ℓ} : {A : Type ℓ} → Outcome A → Type ℓ
Settled {A = A} o = ((v : A) × (o ≡ ok v)) ⊎ ((e : Error) × (o ≡ err e))

-- What holds of every error and of what follows every value holds of the chain.
pub chain {ℓ κ μ} :
    {A : Type ℓ} {B : Type κ} (P : Outcome B → Type μ) (first : Outcome A) (next : A → Outcome B)
    → Settled first
    → ((e : Error) → P (err e))
    → ((v : A) → first ≡ ok v → P (next v))
    → P (first >>= next)
chain P (ok v) next s failed more = more v refl
chain P (err e) next s failed more = failed e
chain P panic next s failed more = elim s [ inl (v, h) ↦ cc | inr (e, h) ↦ cc ]
chain P stuck next s failed more = elim s [ inl (v, h) ↦ cc | inr (e, h) ↦ cc ]

Settled-chain {ℓ} :
    {A B : Type ℓ} (first : Outcome A) (next : A → Outcome B)
    → Settled first
    → ((v : A) → Settled (next v))
    → Settled (first >>= next)
Settled-chain first next s more = chain Settled first next s (λ e. inr (e, refl)) (λ v h. more v)

write_at-Settled : (out : Bytes) (off : ℕ) (bs : Bytes) → Settled (write_at out off bs)
write_at-Settled out off bs = elim (write_at_bounds out off bs) [
  | inl (fits, (out', written, w)) ↦ inl (out', written)
  | inr (large, refused) ↦ inr refused
]

guarded {ℓ κ} :
    {B : Type ℓ} (P : Outcome B → Type κ) (test : Bool) (k : ErrorKind) (rest : Outcome B)
    → ((e : Error) → P (err e))
    → P rest
    → P (reject_if test k >> rest)
guarded P true k rest failed more = failed _
guarded P false k rest failed more = more

place_segment-Settled :
    (out : Bytes) (cursor : ℕ) (s : Segment) → Settled (place_segment out cursor s)
unfolding place_segment
place_segment-Settled out cursor s = elim (Bool-cases (writable s == 0)) [
  | inl none' ↦ rw none' (inl (_, refl))
  | inr some' ↦ rw some' (
      Settled-chain (write_at out (segment_offset cursor s) (take (writable s) s.bytes)) _
        (write_at-Settled _ _ _) (λ v. inl (_, refl)))
]

place_segments-Settled :
    (out : Bytes) (cursor : ℕ) (ss : List Segment) → Settled (place_segments out cursor ss)
unfolding place_segments
place_segments-Settled out cursor [] = inl (_, refl)
place_segments-Settled out cursor (s ∷ ss) =
    Settled-chain (place_segment out cursor s) _ (place_segment-Settled out cursor s) (λ v.
      Settled-chain (place_segments v.1 v.2 ss) _ (place_segments-Settled v.1 v.2 ss)
        (λ w. inl (_, refl)))

place_section-Settled :
    (out : Bytes) (cursor : ℕ) (s : Section) → Settled (place_section out cursor s)
unfolding place_section
place_section-Settled out cursor s = elim (Bool-cases (is_nobits s.header)) [
  | inl no_bits ↦ rw no_bits (inl (_, refl))
  | inr bits ↦ elim (Bool-cases (length s.bytes == 0)) [
    | inl none' ↦ rw (bits, none') (inl (_, refl))
    | inr some' ↦
        rw (bits, some')
          (Settled-chain (write_at out (align_up cursor (max s.header.addralign 1)) s.bytes) _
            (write_at-Settled _ _ _) (λ v. inl (_, refl)))
  ]
]

place_sections-Settled :
    (out : Bytes) (cursor : ℕ) (ss : List Section) → Settled (place_sections out cursor ss)
unfolding place_sections
place_sections-Settled out cursor [] = inl (_, refl)
place_sections-Settled out cursor (s ∷ ss) =
    Settled-chain (place_section out cursor s) _ (place_section-Settled out cursor s) (λ v.
      Settled-chain (place_sections v.1 v.2 ss) _ (place_sections-Settled v.1 v.2 ss)
        (λ w. inl (_, refl)))

build_sections-Settled :
    (out : Bytes) (cursor : ℕ) (ss : List Section) → Settled (build_sections out cursor ss)
unfolding build_sections
build_sections-Settled out cursor [] = inl (_, refl)
build_sections-Settled out cursor (s ∷ ss) =
    let named = assign_name_offsets (ensure_shstrtab (s ∷ ss)).0 in
    Settled-chain (place_sections out cursor named) _ (place_sections-Settled out cursor named)
      (λ v. inl (_, refl))

finish_sections-Settled :
    (p : Placed) (out : Bytes) (e : Endian) (class : ElfClass)
    → Settled (finish_sections p out e class)
unfolding finish_sections
finish_sections-Settled p out e class = elim (Bool-cases (length p.sections == 0)) [
  | inl none' ↦ rw none' (inl (_, refl))
  | inr some' ↦ rw some' (
      Settled-chain (write_at out (align_up p.cursor 8) (write_section_table p.sections [] e class))
        _ (write_at-Settled _ _ _) (λ v. inl (_, refl)))
]

length-write : (h : ElfHeader) → length (Header.write h []) ≡ Header.size h.ident.class
unfolding Header.write to_bytes
length-write h = omega (arith, length-fields h h.ident.encoding h.ident.class)

-- What the serializer can come to, with the sizes of a file header in the two classes at hand.
abbrev pub Ends : ElfImage → Outcome Bytes → Type 0
Ends image o =
    ((bytes : Bytes) × (o ≡ ok bytes)
      × (Header.size image.header.ident.class ≡ Header.size image.ident.class))
    ⊎ (((e : Error) × (o ≡ err e))
        ⊎ ((o ≡ panic) × (Header.size image.header.ident.class ≢ Header.size image.ident.class)))

copy_head-Ends :
    (image : ElfImage) (out : Bytes) (h : ElfHeader)
    → h.ident.class ≡ image.header.ident.class
    → Header.size image.ident.class ≤ length out
    → Ends image (copy_head out (Header.size image.ident.class) (Header.write h []))
unfolding copy_head
copy_head-Ends image out h e room =
    let measured = length-write h ∙ ap Header.size e in
    let fits = le→leb _ _ room in
    elim (Bool-cases (Header.size image.header.ident.class == Header.size image.ident.class)) [
      | inl same ↦ rw (fits, measured, same) (inl (_, refl, ==→eq _ _ same))
      | inr other ↦ rw (fits, measured, other) (inr (inr (refl, ==→ne _ _ other)))
    ]

module _ (image : ElfImage) where
  abbrev class' : ElfClass
  class' = image.ident.class

  -- The last steps, behind the loops: the buffer still has room for the file header.
  finish-Ends :
      (r : List ProgramHeader × Bytes × ℕ) (p : Placed) (out1 : Bytes)
      → place_segments (replicate (Header.size class') 0) (table_end image) image.segments ≡ ok r
      → build_sections r.1 r.2 image.sections ≡ ok p
      → write_at p.out (Header.size class') (write_table r.0 [] image.ident.encoding class')
        ≡ ok out1
      → Ends image (do
        (out2, shoff) ← finish_sections p out1 image.ident.encoding class'
        let header = written_header image (length r.0) (length p.sections) p.shstrndx shoff
        copy_head out2 (Header.size class') (Header.write header []))
  unfolding final_header
  finish-Ends r p out1 segments sections wrote =
      let e = image.ident.encoding in
      let table = write_table r.0 [] e class' in
      let w = write_at-Wrote p.out (Header.size class') table wrote in
      let many =
        place_segments-length (replicate (Header.size class') 0) (table_end image) image.segments
          segments in
      let size : length table ≡ Program.size class' * length image.segments =
        length-write_table r.0 e class' ∙ ap (λ (n : ℕ). Program.size class' * n) many in
      let start : table_end image ≤ max_image = omega (arith, w.bound, size) in
      let moved = (place_segments-AllMoved _ (table_end image) image.segments start segments).0 in
      let built = (build_sections-Sectioned r.1 r.2 image.sections moved.limit sections).moves in
      chain (Ends image) (finish_sections p out1 e class') _
        (finish_sections-Settled p out1 e class') (λ failure. inr (inl (failure, refl)))
        (λ v finish.
          let end = finish_sections-Finished p out1 e class' built.limit finish in
          copy_head-Ends image v.0 _ refl (omega (arith, w.size, end.keeps.longer)))

-- Serialization of any image ends with bytes or with an error, never with a panic, where the two
-- copies of the identification give the file header one size. Where they give it two sizes, it
-- ends with an error or a panic.
pub try_build-Ends : (image : ElfImage) → Ends image (try_build image)
unfolding try_build
try_build-Ends image =
    let class = image.ident.class in
    let e = image.ident.encoding in
    let failed : (failure : Error) → Ends image (err failure) =
      λ failure. inr (inl (failure, refl)) in
    chain (Ends image) (place_segments _ _ image.segments) _ (place_segments-Settled _ _ _) failed
      (λ r segments.
        chain (Ends image) (build_sections r.1 r.2 image.sections) _ (build_sections-Settled _ _ _)
          failed
          (λ p sections.
            chain (Ends image) (write_at p.out _ (write_table r.0 [] e class)) _
              (write_at-Settled _ _ _) failed
              (λ out1 wrote.
                guarded (Ends image) (not (ltb (length r.0) 0x10000))
                  (generic "too many program headers for one table") _ failed
                  (guarded (Ends image) (not (ltb (length p.sections) 0x10000))
                    (generic "too many sections for one table") _ failed
                    (finish-Ends image r p out1 segments sections wrote)))))
