-- ===== src/Elf/Build/Named.antt =====
-- The names of the written sections: each is found in the table of names, at the offset that its
-- header gives, and the table is at the index that the file header gives.
use elfex.Common.{
  ℕ, ◌<◌, ◌≡◌, refl, sym, ap, ◌∙◌, arith, Bytes, List, [], ◌∷◌, ◌++◌, append_assoc, append-nil,
  some, ◌==◌, ◌&&◌, Bool-cases, Option-cases, inl, inr, All, All-append, length, length-append,
}
use elfex.Common.Slices.{bytes_eq}
use elfex.Common.Words.{low32, low32-small}
use elfex.Elf.Build.Names.{
  shstrtab_name, empty_shstrtab, position, ensure_shstrtab, name_blob, name_offsets, assign_name,
  assign_names, assign_name_offsets,
}
use elfex.Elf.Build.Stored.{named}
use elfex.Elf.Parse.Sections.{name_in}
use elfex.Section.{Section}
use elfex.Section.SectionType
use elfex.StringTable
use elfex.StringTable.Names.{IsName, get-name}

name_blob-onto : (blob : Bytes) (ss : List Section) → name_blob blob ss ≡ blob ++ name_blob [] ss
unfolding name_blob
name_blob-onto blob [] = sym (append-nil blob)
name_blob-onto blob (s ∷ ss) =
    name_blob-onto (blob ++ (s.name ++ (0 ∷ []))) ss
    ∙ append_assoc blob (s.name ++ (0 ∷ [])) (name_blob [] ss)
    ∙ ap (λ (r : Bytes). blob ++ r) (sym (name_blob-onto (s.name ++ (0 ∷ [])) ss))

-- The blob, with a name behind the names before it.
blob-split :
    (blob : Bytes) (s : Section) (ss : List Section)
    → name_blob blob (s ∷ ss) ≡ blob ++ (s.name ++ (0 ∷ name_blob [] ss))
unfolding name_blob
blob-split blob s ss =
    name_blob-onto (blob ++ (s.name ++ (0 ∷ []))) ss
    ∙ append_assoc blob (s.name ++ (0 ∷ [])) (name_blob [] ss)
    ∙ ap (λ (r : Bytes). blob ++ r) (append_assoc s.name (0 ∷ []) (name_blob [] ss))

assign_name-fields :
    (table : Bytes) (s : Section) (offset : ℕ)
    → ((assign_name table s offset).name ≡ s.name)
      × ((assign_name table s offset).header.name_index ≡ offset)
unfolding assign_name
assign_name-fields table s offset =
    elim (Bool-cases (s.header.type == SectionType.strtab && bytes_eq s.name shstrtab_name)) [
      | inl own ↦ rw own (refl, refl)
      | inr other ↦ rw other (refl, refl)
    ]

-- The table gives a section its name.
abbrev pub IsNamed : Bytes → Section → Type 0
IsNamed table s = name_in table s.header ≡ s.name

name_in-get :
    (table : Bytes) (s : Section) (name : Bytes)
    → StringTable.get table s.header.name_index ≡ some name
    → name_in table s.header ≡ name
unfolding name_in
name_in-get table s name h = rw (h, name_in)

assign_name-IsNamed :
    (blob : Bytes) (s : Section) (ss : List Section)
    → length (name_blob blob (s ∷ ss)) < 0x100000000
    → IsName s.name
    → IsNamed
        (name_blob blob (s ∷ ss))
        (assign_name (name_blob blob (s ∷ ss)) s (low32 (length blob)))
assign_name-IsNamed blob s ss small good =
    let table = name_blob blob (s ∷ ss) in
    let n = assign_name table s (low32 (length blob)) in
    let f = assign_name-fields table s (low32 (length blob)) in
    let whole = blob-split blob s ss in
    let size = ap length whole ∙ length-append blob (s.name ++ (0 ∷ name_blob [] ss)) in
    let offset : n.header.name_index ≡ length blob =
      f.1 ∙ low32-small (length blob) (omega (arith, size)) in
    name_in-get table n n.name (
      ap (StringTable.get table) offset
      ∙ ap (λ (t : Bytes). StringTable.get t (length blob)) whole
      ∙ get-name blob s.name (name_blob [] ss) good
      ∙ ap some (sym f.0))

assign_names-IsNamed :
    (blob table : Bytes) (ss : List Section)
    → table ≡ name_blob blob ss
    → length table < 0x100000000
    → All (λ (s : Section). IsName s.name) ss
    → All (IsNamed table) (assign_names table ss (name_offsets blob ss))
unfolding assign_names name_offsets name_blob
assign_names-IsNamed blob table [] e small good = tt
assign_names-IsNamed blob table (s ∷ ss) e small good = (
  rw e (assign_name-IsNamed blob s ss (rw e at small) good.0),
  assign_names-IsNamed (blob ++ (s.name ++ (0 ∷ []))) table ss e small good.1,
)

shstrtab-IsName : IsName shstrtab_name
unfolding StringTable.is_utf8
shstrtab-IsName = record { no_nul = omega arith; text = refl }

ensure_shstrtab-IsName :
    (ss : List Section)
    → All (λ (s : Section). IsName s.name) ss
    → All (λ (s : Section). IsName s.name) (ensure_shstrtab ss).0
unfolding ensure_shstrtab
ensure_shstrtab-IsName ss good = elim (Option-cases (position ss)) [
  | inl absent ↦
      rw (absent, ensure_shstrtab)
        (All-append (λ (s : Section). IsName s.name) ss (empty_shstrtab ∷ []) good
          (shstrtab-IsName, tt))
  | inr (i, found) ↦ rw (found, ensure_shstrtab) good
]

-- The table of the names of an image's sections.
unfoldable pub names_table : List Section → Bytes
names_table ss = name_blob (0 ∷ []) (ensure_shstrtab ss).0

pub named-IsNamed :
    (ss : List Section)
    → length (names_table ss) < 0x100000000
    → All (λ (s : Section). IsName s.name) ss
    → All (IsNamed (names_table ss)) (named ss)
unfolding names_table assign_name_offsets
named-IsNamed [] small good = tt
named-IsNamed (s ∷ ss) small good =
    assign_names-IsNamed (0 ∷ []) (names_table (s ∷ ss)) (ensure_shstrtab (s ∷ ss)).0 refl small
      (ensure_shstrtab-IsName (s ∷ ss) good)
