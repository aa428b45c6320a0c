-- ===== src/Elf/Build/Derived.antt =====
-- The tables that are derived from an image, and from the image that is parsed from its written
-- file: what they are parsed from is the same.
use elfex.Common.{
  ◌≡◌, ◌≢◌, refl, ap, ◌∙◌, arith, List, [], ◌∷◌, ◌++◌, inl, inr, ◌==◌, if◌then◌else◌, Bool-cases,
  ==→eq, ne→==,
}
use elfex.Elf.{ElfImage}
use elfex.Elf.Build.Names.{is_shstrtab, empty_shstrtab}
use elfex.Elf.Build.SameSections.{SameSection, SameSections}
use elfex.Elf.Inspect.{relocations_of, note_sections}
use elfex.Ident.{ElfIdent}
use elfex.Section.{Section, SectionHeader, is_nobits}
use elfex.Section.SectionType

same-type : (s t : Section) → SameSection s t → t.header.type ≡ s.header.type
same-type s t h = ap (λ (k : SectionHeader). k.type) h.header

-- A section that holds no strings, and has bytes, keeps them.
same-bytes :
    (s t : Section)
    → SameSection s t
    → s.header.type ≢ SectionType.strtab
    → s.header.type ≢ SectionType.nobits
    → t.bytes ≡ s.bytes
unfolding is_shstrtab is_nobits
same-bytes s t h strings nobits =
    let a = ne→== s.header.type SectionType.strtab strings in
    let b = ne→== s.header.type SectionType.nobits nobits in
    let kept : t.bytes ≡ (if is_nobits s.header then [] else s.bytes) =
      h.bytes (ground (arith, a)) in
    kept ∙ rw b refl

pub note_sections-Same :
    (ss ts : List Section) → SameSections ss ts → note_sections ts ≡ note_sections ss
unfolding note_sections
note_sections-Same [] [] h = refl
note_sections-Same [] (t ∷ ts) h = absurd h
note_sections-Same (s ∷ ss) [] h = absurd h
note_sections-Same (s ∷ ss) (t ∷ ts) h =
    let type = same-type s t h.0 in
    elim (Bool-cases (s.header.type == SectionType.note)) [
      | inl note ↦
          let e = ==→eq s.header.type SectionType.note note in
          rw (
            type,
            note,
            same-bytes s t h.0 (λ k. omega (arith, e, k)) (λ k. omega (arith, e, k)),
            note_sections-Same ss ts h.1,
          )
      | inr other ↦ rw (type, other, note_sections-Same ss ts h.1)
    ]

module _ (image parsed : ElfImage) (ident : parsed.ident ≡ image.ident) where
  pub relocations_of-Same :
      (ss ts : List Section)
      → SameSections ss ts
      → relocations_of parsed ts ≡ relocations_of image ss
  unfolding relocations_of
  relocations_of-Same [] [] h = refl
  relocations_of-Same [] (t ∷ ts) h = absurd h
  relocations_of-Same (s ∷ ss) [] h = absurd h
  relocations_of-Same (s ∷ ss) (t ∷ ts) h =
      let type = same-type s t h.0 in
      let e = ap (λ (i : ElfIdent). i.encoding) ident in
      let c = ap (λ (i : ElfIdent). i.class) ident in
      elim (Bool-cases (s.header.type == SectionType.rela)) [
        | inl rela ↦
            let k = ==→eq s.header.type SectionType.rela rela in
            rw (
              type,
              rela,
              same-bytes s t h.0 (λ z. omega (arith, k, z)) (λ z. omega (arith, k, z)),
              e,
              c,
              relocations_of-Same ss ts h.1,
            )
        | inr other ↦ elim (Bool-cases (s.header.type == SectionType.rel)) [
          | inl rel ↦
              let k = ==→eq s.header.type SectionType.rel rel in
              rw (
                type,
                other,
                rel,
                same-bytes s t h.0 (λ z. omega (arith, k, z)) (λ z. omega (arith, k, z)),
                e,
                c,
                relocations_of-Same ss ts h.1,
              )
          | inr neither ↦ rw (type, other, neither, relocations_of-Same ss ts h.1)
        ]
      ]

  -- The table of names that is put behind the sections is none of these tables.
  pub relocations_of-names :
      (ss : List Section)
      → relocations_of image (ss ++ (empty_shstrtab ∷ [])) ≡ relocations_of image ss
  unfolding relocations_of
  relocations_of-names [] = refl
  relocations_of-names (s ∷ ss) = rw (relocations_of-names ss)

pub note_sections-names :
    (ss : List Section) → note_sections (ss ++ (empty_shstrtab ∷ [])) ≡ note_sections ss
unfolding note_sections
note_sections-names [] = refl
note_sections-names (s ∷ ss) = rw (note_sections-names ss)
