-- ===== src/Elf/Build/NamedFields.antt =====
-- The header fields of the named sections are in the ranges of those of the image's sections.
use elfex.Common.{
  ℕ, ◌<◌, arith, Bytes, List, [], ◌∷◌, ◌++◌, ◌==◌, ◌&&◌, Bool-cases, Option-cases, inl, inr, All,
  All-append, length,
}
use elfex.Common.Slices.{bytes_eq}
use elfex.Common.Words.{low32, low32-lt}
use elfex.Elf.Build.Named.{names_table}
use elfex.Elf.Build.Names.{
  shstrtab_name, empty_shstrtab, position, ensure_shstrtab, name_offsets, assign_name, assign_names,
  assign_name_offsets,
}
use elfex.Elf.Build.Stored.{named}
use elfex.Ident.ElfClass.{ElfClass, elf32, elf64}
use elfex.Section.{Section, SectionHeader}
use elfex.Section.SectionType
use elfex.Section.RoundTrip as SectionTrip
use elfex.Section.RoundTrip.{FitsClass}

-- A property of headers that any 32-bit name index and any 32-bit size may have.
record Loose (P : SectionHeader → Type 0) : Type 0 where
  own : P empty_shstrtab.header
  name : (h : SectionHeader) (n : ℕ) → P h → n < 0x100000000 → P (record h { name_index = n })
  size :
      (h : SectionHeader) (n m : ℕ)
      → P h
      → n < 0x100000000
      → m < 0x100000000
      → P (record h { name_index = n; size = m })

module _ (P : SectionHeader → Type 0) (loose : Loose P) (table : Bytes)
    (small : length table < 0x100000000) where
  assign_name-All :
      (s : Section) (n : ℕ) → P s.header → n < 0x100000000 → P (assign_name table s n).header
  unfolding assign_name
  assign_name-All s n h lt =
      elim (Bool-cases (s.header.type == SectionType.strtab && bytes_eq s.name shstrtab_name)) [
        | inl own ↦ rw own (loose.size s.header n (length table) h lt small)
        | inr other ↦ rw other (loose.name s.header n h lt)
      ]

  assign_names-All :
      (blob : Bytes) (ss : List Section)
      → All (λ (s : Section). P s.header) ss
      → All (λ (s : Section). P s.header) (assign_names table ss (name_offsets blob ss))
  unfolding assign_names name_offsets
  assign_names-All blob [] h = tt
  assign_names-All blob (s ∷ ss) h = (
    assign_name-All s (low32 (length blob)) h.0 (low32-lt (length blob)),
    assign_names-All (blob ++ (s.name ++ (0 ∷ []))) ss h.1,
  )

  ensure_shstrtab-All :
      (ss : List Section)
      → All (λ (s : Section). P s.header) ss
      → All (λ (s : Section). P s.header) (ensure_shstrtab ss).0
  unfolding ensure_shstrtab
  ensure_shstrtab-All ss h = elim (Option-cases (position ss)) [
    | inl absent ↦
        rw (absent, ensure_shstrtab)
          (All-append (λ (s : Section). P s.header) ss (empty_shstrtab ∷ []) h (loose.own, tt))
    | inr (i, found) ↦ rw (found, ensure_shstrtab) h
  ]

named-All :
    (P : SectionHeader → Type 0) (ss : List Section)
    → Loose P
    → length (names_table ss) < 0x100000000
    → All (λ (s : Section). P s.header) ss
    → All (λ (s : Section). P s.header) (named ss)
unfolding names_table assign_name_offsets
named-All P [] loose small h = tt
named-All P (s ∷ ss) loose small h =
    assign_names-All P loose (names_table (s ∷ ss)) small (0 ∷ []) (ensure_shstrtab (s ∷ ss)).0
      (ensure_shstrtab-All P loose (names_table (s ∷ ss)) small (s ∷ ss) h)

IsTyped-Loose : Loose SectionTrip.IsTyped
IsTyped-Loose = record {
  own = omega arith;
  name = λ h n t lt. ground (arith, t);
  size = λ h n m t a b. ground (arith, t);
}

FitsElf32-Loose : Loose SectionTrip.FitsElf32
FitsElf32-Loose = record {
  own = omega arith;
  name = λ h n t lt. ground (arith, t);
  size = λ h n m t a b. ground (arith, t);
}

pub named-IsTyped :
    (ss : List Section)
    → length (names_table ss) < 0x100000000
    → All (λ (s : Section). SectionTrip.IsTyped s.header) ss
    → All (λ (s : Section). SectionTrip.IsTyped s.header) (named ss)
named-IsTyped ss small h = named-All SectionTrip.IsTyped ss IsTyped-Loose small h

FitsClass-Loose : (class : ElfClass) → Loose (FitsClass class)
FitsClass-Loose elf64 = record { own = tt; name = λ h n t lt. tt; size = λ h n m t a b. tt }
FitsClass-Loose elf32 = FitsElf32-Loose

pub named-FitsClass :
    (class : ElfClass) (ss : List Section)
    → length (names_table ss) < 0x100000000
    → All (λ (s : Section). FitsClass class s.header) ss
    → All (λ (s : Section). FitsClass class s.header) (named ss)
named-FitsClass class ss small h = named-All (FitsClass class) ss (FitsClass-Loose class) small h
