-- ===== src/Elf/Build/NamesTable.antt =====
-- The section that holds the names of the written sections, at the index that the file header has.
use elfex.Common.{
  ℕ, suc, zero, ◌+◌, ◌≤◌, ◌<◌, ◌≡◌, ◌≢◌, refl, ap, ◌∙◌, subst, arith, Bytes, List, [], ◌∷◌, ◌++◌,
  some, true, lt→ltb, Bool-cases, Option-cases, ==→eq, inl, inr, length, length-append, get_elem?,
}
use elfex.Common.Elements.{get_elem?-append_right, get_elem?-lt}
use elfex.Common.Slices.{bytes_eq}
use elfex.Common.Words.{low32}
use elfex.Elf.{ElfImage}
use elfex.Elf.Build.Buffer.{Holds}
use elfex.Elf.Build.Named.{names_table}
use elfex.Elf.Build.Names.{
  empty_shstrtab, is_shstrtab, position, u16_or_zero, ensure_shstrtab, name_blob, name_offsets,
  assign_name, assign_names, assign_name_offsets,
}
use elfex.Elf.Build.Output.{max_image}
use elfex.Elf.Build.Serialized.{Run, table_end}
use elfex.Elf.Build.Stored.{AllStored, StoredAs, AllStored-length, named, names_index}
use elfex.Section.{Section, is_nobits}
use elfex.Section.SectionType

abbrev FoundAt : List Section → ℕ → Type 0
FoundAt ss i = (s : Section) × (get_elem? ss i ≡ some s) × (is_shstrtab s ≡ true)

position-FoundAt : (ss : List Section) (i : ℕ) → position ss ≡ some i → FoundAt ss i
unfolding position
position-FoundAt [] i h = absurd (cc)
position-FoundAt (s ∷ ss) i h = elim (Bool-cases (is_shstrtab s)) [
  | inl own ↦
      let e : some 0 ≡ some i = rw own at h in
      let same : 0 ≡ i = cc in subst (FoundAt (s ∷ ss)) same (s, refl, own)
  | inr other ↦ elim (Option-cases (position ss)) [
    | inl absent ↦ absurd (let e = rw (other, absent) at h in cc)
    | inr (j, found) ↦
        let e : some (suc j) ≡ some i = rw (other, found) at h in
        let same : suc j ≡ i = cc in subst (FoundAt (s ∷ ss)) same (position-FoundAt ss j found)
  ]
]

u16_or_zero-small : (n : ℕ) → n < 0x10000 → u16_or_zero n ≡ n
unfolding u16_or_zero
u16_or_zero-small n h = rw (lt→ltb n 0x10000 h)

ensure_shstrtab-FoundAt :
    (ss : List Section)
    → length (ensure_shstrtab ss).0 < 0x10000
    → FoundAt (ensure_shstrtab ss).0 (ensure_shstrtab ss).1
unfolding ensure_shstrtab is_shstrtab bytes_eq
ensure_shstrtab-FoundAt ss few = elim (Option-cases (position ss)) [
  | inl absent ↦
      let short : length (ss ++ (empty_shstrtab ∷ [])) < 0x10000 =
        rw (absent, ensure_shstrtab) at few in
      let size = length-append ss (empty_shstrtab ∷ []) in
      let last : get_elem? (ss ++ (empty_shstrtab ∷ [])) (length ss) ≡ some empty_shstrtab =
        get_elem?-append_right ss (empty_shstrtab ∷ []) (length ss) (omega arith)
        ∙ ap (get_elem? (empty_shstrtab ∷ [])) {y = 0} (omega arith) in
      rw (absent, u16_or_zero-small (length ss) (omega (arith, size)), ensure_shstrtab)
        (empty_shstrtab, last, refl)
  | inr (i, found) ↦
      let (s, at, own) = position-FoundAt ss i found in
      let short : length ss < 0x10000 = rw (found, ensure_shstrtab) at few in
      rw (found, u16_or_zero-small i (omega (arith, get_elem?-lt ss i s at)), ensure_shstrtab)
        (s, at, own)
]

-- A section of strings with given bytes.
abbrev TableAt : Bytes → List Section → ℕ → Type 0
TableAt table ns i =
    (n : Section) × (get_elem? ns i ≡ some n)
    × (n.header.type ≡ SectionType.strtab)
    × (n.bytes ≡ table)

assign_name-table :
    (table : Bytes) (s : Section) (offset : ℕ)
    → is_shstrtab s ≡ true
    → ((assign_name table s offset).header.type ≡ SectionType.strtab)
      × ((assign_name table s offset).bytes ≡ table)
unfolding assign_name is_shstrtab
assign_name-table table s offset own = ground arith

assign_names-TableAt :
    (table blob : Bytes) (ss : List Section) (i : ℕ)
    → FoundAt ss i
    → TableAt table (assign_names table ss (name_offsets blob ss)) i
unfolding assign_names name_offsets
assign_names-TableAt table blob [] i (s, at, own) = absurd (cc)
assign_names-TableAt table blob (t ∷ ss) zero (s, at, own) =
    let e : t ≡ s = cc in
    let both = assign_name-table table t (low32 (length blob)) (ap is_shstrtab e ∙ own) in
    (_, refl, both.0, both.1)
assign_names-TableAt table blob (t ∷ ss) (suc i) found =
    assign_names-TableAt table (blob ++ (t.name ++ (0 ∷ []))) ss i found

length-assign_names :
    (table blob : Bytes) (ss : List Section)
    → length (assign_names table ss (name_offsets blob ss)) ≡ length ss
unfolding assign_names name_offsets
length-assign_names table blob [] = refl
length-assign_names table blob (s ∷ ss) =
    ap suc (length-assign_names table (blob ++ (s.name ++ (0 ∷ []))) ss)

named-TableAt :
    (ss : List Section)
    → ss ≢ []
    → length (named ss) < 0x10000
    → TableAt (names_table ss) (named ss) (names_index ss)
unfolding names_table assign_name_offsets
named-TableAt [] some' few = absurd (some' refl)
named-TableAt (s ∷ ss) some' few =
    let all = (ensure_shstrtab (s ∷ ss)).0 in
    assign_names-TableAt (name_blob (0 ∷ []) all) (0 ∷ []) all (ensure_shstrtab (s ∷ ss)).1 (
      ensure_shstrtab-FoundAt (s ∷ ss)
        (omega (arith, length-assign_names (name_blob (0 ∷ []) all) (0 ∷ []) all)))

AllStored-get :
    (out : Bytes) (lo hi : ℕ) (ss ps : List Section) (i : ℕ) (s : Section)
    → AllStored out lo hi ss ps
    → get_elem? ss i ≡ some s
    → (p : Section) × (get_elem? ps i ≡ some p) × StoredAs out lo hi s p
AllStored-get out lo hi [] ps i s h at = absurd (cc)
AllStored-get out lo hi (t ∷ ss) [] i s h at = absurd h
AllStored-get out lo hi (t ∷ ss) (p ∷ ps) zero s h at =
    let e : t ≡ s = cc in (p, refl, subst (λ u. StoredAs out lo hi u p) e h.0)
AllStored-get out lo hi (t ∷ ss) (p ∷ ps) (suc i) s h at = AllStored-get out lo hi ss ps i s h.1 at

name_blob-length : (blob : Bytes) (ss : List Section) → length blob ≤ length (name_blob blob ss)
unfolding name_blob
name_blob-length blob [] = omega arith
name_blob-length blob (s ∷ ss) = omega (
  arith,
  name_blob-length (blob ++ (s.name ++ (0 ∷ []))) ss,
  length-append blob (s.name ++ (0 ∷ [])),
)

names_table-pos : (ss : List Section) → 0 < length (names_table ss)
unfolding names_table
names_table-pos ss = omega (arith, name_blob-length (0 ∷ []) (ensure_shstrtab ss).0)

-- The header of a section of strings with given bytes, which stand where it says.
pub record HeldTable (bytes table : Bytes) (p : Section) : Type 0 where
  pub type : p.header.type ≡ SectionType.strtab
  pub size : p.header.size ≡ length table
  pub held : Holds bytes p.header.offset table
  pub limit : p.header.offset + length table ≤ max_image

StoredAs-HeldTable :
    (bytes table : Bytes) (lo : ℕ) (s p : Section)
    → s.header.type ≡ SectionType.strtab
    → s.bytes ≡ table
    → 0 < length table
    → StoredAs bytes lo max_image s p
    → HeldTable bytes table p
unfolding is_nobits
StoredAs-HeldTable bytes table lo s p strings e full (inl (bits, same)) =
    absurd (omega (arith, strings, ==→eq _ _ bits))
StoredAs-HeldTable bytes table lo s p strings e full (inr (inl (bits, none', cleared))) =
    absurd (omega (arith, none', ap length e))
StoredAs-HeldTable bytes table lo s p strings e full (inr (inr w)) = record {
  type = ap (λ (q : Section). q.header.type) w.header ∙ strings;
  size = ap (λ (q : Section). q.header.size) w.header ∙ ap length e;
  held = subst (Holds bytes p.header.offset) e w.held;
  limit = omega (arith, w.limit, ap length e);
}

-- Where the written file has the names of its sections.
pub run-HeldTable :
    (image : ElfImage) {bytes : Bytes} (run : Run image bytes)
    → image.sections ≢ []
    → (p : Section) × (get_elem? run.sections run.shstrndx ≡ some p)
      × HeldTable bytes (names_table image.sections) p
run-HeldTable image {bytes} run some' =
    let ns = named image.sections in
    let lo = table_end image in
    let count = AllStored-length bytes lo max_image ns run.sections run.stored in
    let (n, at, strings, same) =
      named-TableAt image.sections some' (omega (arith, count, run.shnum_lt)) in
    let (p, found, stored) =
      AllStored-get bytes lo max_image ns run.sections (names_index image.sections) n run.stored
        at in
    (
      p,
      ap (get_elem? run.sections) run.index ∙ found,
      StoredAs-HeldTable bytes (names_table image.sections) lo n p strings same
          (names_table-pos image.sections) stored,
    )
