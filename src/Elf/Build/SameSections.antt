-- ===== src/Elf/Build/SameSections.antt =====
-- The sections of an image, and those that are read from its written file.
use elfex.Common.{
  ℕ, ◌≡◌, refl, sym, ap, ◌∙◌, subst, arith, Bytes, List, [], ◌∷◌, ◌++◌, true, false, ◌==◌, ◌&&◌,
  Bool-cases, inl, inr, All, if◌then◌else◌, map, length, take, drop,
}
use elfex.Common.Slices.{bytes_eq}
use elfex.Common.Words.{low32}
use elfex.Elf.Build.Buffer.{Holds→take}
use elfex.Elf.Build.Named.{IsNamed}
use elfex.Elf.Build.Names.{
  shstrtab_name, is_shstrtab, name_offsets, ensure_shstrtab, assign_name, assign_names,
}
use elfex.Elf.Build.Output.{max_image}
use elfex.Elf.Build.Stored.{AllStored, StoredAs}
use elfex.Elf.Parse.SectionBytes.{HasBytes, section_in}
use elfex.Elf.Parse.Sections.{name_in}
use elfex.Section.{Section, SectionHeader, is_nobits}
use elfex.Section.SectionType

-- The sections that the file has: those of the image, with an empty table of names behind them if
-- they are some and have no such table.
abbrev pub listed : List Section → List Section
listed [] = []
listed (s ∷ ss) = (ensure_shstrtab (s ∷ ss)).0

-- A parsed section is the original one: with its own name, with its own header but for the name's
-- index, the offset and the number of bytes, and, unless it is the table of names, with its own
-- bytes, if its type has any.
pub record SameSection (s t : Section) : Type 0 where
  pub header : t.header ≡ record s.header {
    name_index = t.header.name_index;
    offset = t.header.offset;
    size = if is_nobits s.header then s.header.size else length t.bytes;
  }
  pub name : t.name ≡ s.name
  pub bytes : is_shstrtab s ≡ false → t.bytes ≡ (if is_nobits s.header then [] else s.bytes)

abbrev pub SameSections : List Section → List Section → Type 0
SameSections [] [] = Unit {0}
SameSections [] (t ∷ ts) = ⊥
SameSections (s ∷ ss) [] = ⊥
SameSections (s ∷ ss) (t ∷ ts) = SameSection s t × SameSections ss ts

-- What naming changes of a section.
record Renamed (s n : Section) : Type 0 where
  header : n.header ≡ record s.header { name_index = n.header.name_index; size = n.header.size }
  size : is_nobits s.header ≡ true → n.header.size ≡ s.header.size
  name : n.name ≡ s.name
  bytes : is_shstrtab s ≡ false → n.bytes ≡ s.bytes

assign_name-Renamed :
    (table : Bytes) (s : Section) (offset : ℕ) → Renamed s (assign_name table s offset)
unfolding assign_name is_shstrtab is_nobits
assign_name-Renamed table s offset =
    elim (Bool-cases (s.header.type == SectionType.strtab && bytes_eq s.name shstrtab_name)) [
      | inl own ↦ rw own (record {
        header = refl;
        size = λ nobits. absurd (ground arith);
        name = refl;
        bytes = λ other. absurd (ground arith);
      })
      | inr other ↦
          rw other (record { header = refl; size = λ nobits. refl; name = refl; bytes = λ h. refl })
    ]

-- The bytes and the size of a stored section that is read.
record ReadAs (n : Section) (t : Section) : Type 0 where
  header : t.header ≡ record n.header {
    offset = t.header.offset;
    size = if is_nobits n.header then n.header.size else length t.bytes;
  }
  bytes : t.bytes ≡ (if is_nobits n.header then [] else n.bytes)

nothing : (bs : Bytes) → length bs ≡ 0 → bs ≡ []
nothing [] h = refl
nothing (b ∷ bs) h = absurd (omega arith)

ReadAs-bits :
    (n t : Section)
    → is_nobits n.header ≡ false
    → t.header ≡ record n.header { offset = t.header.offset; size = length t.bytes }
    → t.bytes ≡ n.bytes
    → ReadAs n t
ReadAs-bits n t bits h e = record { header = rw bits h; bytes = rw bits e }

ReadAs-nobits :
    (n t : Section) → is_nobits n.header ≡ true → t.header ≡ n.header → t.bytes ≡ [] → ReadAs n t
ReadAs-nobits n t nobits h e = record {
  header = rw nobits (h ∙ rw (ap (λ (k : SectionHeader). k.offset) h) refl);
  bytes = rw nobits e;
}

section_in-bits :
    (bytes table : Bytes) (h : SectionHeader)
    → is_nobits h ≡ false
    → (section_in bytes table h).bytes ≡ take h.size (drop h.offset bytes)
unfolding section_in
section_in-bits bytes table h bits = rw bits refl

section_in-nobits :
    (bytes table : Bytes) (h : SectionHeader)
    → is_nobits h ≡ true
    → (section_in bytes table h).bytes ≡ []
unfolding section_in
section_in-nobits bytes table h nobits = rw nobits refl

-- A section of no bytes, or one whose bytes stand where its header says.
sized-ReadAs :
    (bytes table : Bytes) (n : Section) (h : SectionHeader)
    → is_nobits n.header ≡ false
    → h ≡ record n.header { offset = h.offset; size = length n.bytes }
    → take (length n.bytes) (drop h.offset bytes) ≡ n.bytes
    → ReadAs n (section_in bytes table h)
unfolding section_in is_nobits
sized-ReadAs bytes table n h bits head held =
    let size : h.size ≡ length n.bytes = ap (λ (k : SectionHeader). k.size) head in
    let type : h.type ≡ n.header.type = ap (λ (k : SectionHeader). k.type) head in
    let got : (section_in bytes table h).bytes ≡ n.bytes =
      section_in-bits bytes table h (ap (λ (t : ℕ). t == SectionType.nobits) type ∙ bits)
      ∙ ap (λ (k : ℕ). take k (drop h.offset bytes)) size
      ∙ held in
    ReadAs-bits n (section_in bytes table h) bits
      (subst (λ (k : ℕ). h ≡ record n.header { offset = h.offset; size = k }) (sym (ap length got))
        head)
      got

StoredAs-ReadAs :
    (bytes table : Bytes) (lo : ℕ) (n p : Section)
    → StoredAs bytes lo max_image n p
    → ReadAs n (section_in bytes table p.header)
unfolding section_in
StoredAs-ReadAs bytes table lo n p (inl (nobits, same)) =
    let head = ap (λ (q : Section). q.header) same in
    ReadAs-nobits n (section_in bytes table p.header) nobits head
      (section_in-nobits bytes table p.header (ap is_nobits head ∙ nobits))
StoredAs-ReadAs bytes table lo n p (inr (inl (bits, none', cleared))) =
    let head : p.header ≡ record n.header { size = 0 } = ap (λ (q : Section). q.header) cleared in
    sized-ReadAs bytes table n p.header bits
      (head ∙ rw (ap (λ (k : SectionHeader). k.offset) head, none') refl)
      (rw none' (sym (nothing n.bytes none')))
StoredAs-ReadAs bytes table lo n p (inr (inr w)) =
    sized-ReadAs bytes table n p.header w.bits (ap (λ (q : Section). q.header) w.header)
      (Holds→take w.held)

name_in-index :
    (table : Bytes) (h k : SectionHeader)
    → h.name_index ≡ k.name_index
    → name_in table h ≡ name_in table k
unfolding name_in
name_in-index table h k e = rw e refl

same_nobits :
    (s n : Section) → n.header.type ≡ s.header.type → is_nobits n.header ≡ is_nobits s.header
unfolding is_nobits
same_nobits s n e = ap (λ (t : ℕ). t == SectionType.nobits) e

ReadAs-Same : (s n t : Section) → Renamed s n → t.name ≡ s.name → ReadAs n t → SameSection s t
ReadAs-Same s n t r name read =
    let same : is_nobits n.header ≡ is_nobits s.header =
      same_nobits s n (ap (λ (k : SectionHeader). k.type) r.header) in
    elim (Bool-cases (is_nobits s.header)) [
      | inl nobits ↦
          let z : is_nobits n.header ≡ true = same ∙ nobits in
          let head = rw z at read.header in
          let got = rw z at read.bytes in
          record {
            header = rw nobits (ground (arith, r.header, r.size nobits, head));
            name = name;
            bytes = λ other. rw nobits got;
          }
      | inr bits ↦
          let z : is_nobits n.header ≡ false = same ∙ bits in
          let head = rw z at read.header in
          let got = rw z at read.bytes in
          record {
            header = rw bits (ground (arith, r.header, head));
            name = name;
            bytes = λ other. rw bits (got ∙ r.bytes other);
          }
    ]

stored-Same :
    (bytes table : Bytes) (lo : ℕ) (s n p : Section)
    → Renamed s n
    → IsNamed table n
    → StoredAs bytes lo max_image n p
    → SameSection s (section_in bytes table p.header)
unfolding section_in
stored-Same bytes table lo s n p r named stored =
    let read = StoredAs-ReadAs bytes table lo n p stored in
    let index : p.header.name_index ≡ n.header.name_index =
      ap (λ (k : SectionHeader). k.name_index) read.header in
    ReadAs-Same s n (section_in bytes table p.header) r
      (name_in-index table p.header n.header index ∙ named ∙ r.name) read

pub stored-SameSections :
    (bytes table blob : Bytes) (lo : ℕ) (ss ps : List Section)
    → All (IsNamed table) (assign_names table ss (name_offsets blob ss))
    → AllStored bytes lo max_image (assign_names table ss (name_offsets blob ss)) ps
    → SameSections ss (map (section_in bytes table) (map (λ (p : Section). p.header) ps))
unfolding assign_names name_offsets
stored-SameSections bytes table blob lo [] [] named stored = tt
stored-SameSections bytes table blob lo [] (p ∷ ps) named stored = absurd stored
stored-SameSections bytes table blob lo (s ∷ ss) [] named stored = absurd stored
stored-SameSections bytes table blob lo (s ∷ ss) (p ∷ ps) named stored = (
  stored-Same bytes table lo s (assign_name table s (low32 (length blob))) p
      (assign_name-Renamed table s (low32 (length blob))) named.0 stored.0,
  stored-SameSections bytes table (blob ++ (s.name ++ (0 ∷ []))) lo ss ps named.1 stored.1,
)

-- The bytes of the stored sections lie in the file.
StoredAs-HasBytes :
    (bytes : Bytes) (lo : ℕ) (n p : Section)
    → StoredAs bytes lo max_image n p
    → HasBytes bytes p.header
StoredAs-HasBytes bytes lo n p (inl (nobits, same)) =
    λ bits full. absurd (let e = ap (λ (q : Section). is_nobits q.header) same in cc)
StoredAs-HasBytes bytes lo n p (inr (inl (bits, none', cleared))) =
    λ b full. absurd (full (ap (λ (q : Section). q.header.size) cleared))
StoredAs-HasBytes bytes lo n p (inr (inr w)) =
    let size = ap (λ (q : Section). q.header.size) w.header in
    λ b full. (omega (arith, w.held.room, size), omega (arith, w.limit, size))

pub AllStored-HasBytes :
    (bytes : Bytes) (lo : ℕ) (ss ps : List Section)
    → AllStored bytes lo max_image ss ps
    → All (HasBytes bytes) (map (λ (p : Section). p.header) ps)
AllStored-HasBytes bytes lo [] [] h = tt
AllStored-HasBytes bytes lo [] (p ∷ ps) h = absurd h
AllStored-HasBytes bytes lo (s ∷ ss) [] h = absurd h
AllStored-HasBytes bytes lo (s ∷ ss) (p ∷ ps) h =
    (StoredAs-HasBytes bytes lo s p h.0, AllStored-HasBytes bytes lo ss ps h.1)
