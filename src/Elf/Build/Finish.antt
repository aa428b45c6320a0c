-- ===== src/Elf/Build/Finish.antt =====
-- The section part, the section header table, and the file header of the written image.
use elfex.Common.{
  ◌⊎◌, ==→eq, ℕ, ◌*◌, ◌≤◌, ◌<◌, ◌≡◌, refl, sym, ap, ◌∙◌, subst, arith, Bytes, List, [], ◌∷◌, inl,
  inr, ◌&&◌, leb, ◌==◌, Bool-cases, Option-cases, length, length-append, append-nil, concat,
  concat-append,
}
use elfex.Common.Outcome.{ok, bind-ok-parts, ok-injective}
use elfex.Common.Slices.{splice}
use elfex.Elf.{align_up}
use elfex.Elf.Align.{align_up-ge}
use elfex.Elf.Build.{Placed, place_sections, build_sections, write_section_table, finish_sections}
use elfex.Elf.Build.Buffer.{Holds, Keeps, Keeps-refl, write_at-Wrote, splice-inside, splice-after}
use elfex.Elf.Build.Names.{u16_or_zero, position, ensure_shstrtab}
use elfex.Elf.Build.Output.{max_image, write_at, copy_head}
use elfex.Elf.Build.Stored.{AllStored, named, names_index, place_sections-Stored}
use elfex.Elf.Build.Segments.{Moves, Moves-refl, Wrote-Moves}
use elfex.Elf.Edit.ReadBack.{length-splice}
use elfex.Headers.Table.{write_table, table_onto, write_table-append, length-fields}
use elfex.Ident.ElfClass.{ElfClass}
use elfex.Ident.Endian.{Endian}
use elfex.Program
use elfex.Program.{ProgramHeader}
use elfex.Section.{Section}

u16_or_zero-lt : (n : ℕ) → u16_or_zero n < 0x10000
unfolding u16_or_zero
u16_or_zero-lt n = ground arith

ensure_shstrtab-lt : (ss : List Section) → (ensure_shstrtab ss).1 < 0x10000
unfolding ensure_shstrtab
ensure_shstrtab-lt ss = elim (Option-cases (position ss)) [
  | inl absent ↦ rw (absent, ensure_shstrtab) (u16_or_zero-lt (length ss))
  | inr (i, found) ↦ rw (found, ensure_shstrtab) (u16_or_zero-lt i)
]

-- The sections stand in the buffer, and the index of their names table has 16 bits.
pub record Sectioned (out : Bytes) (cursor : ℕ) (ss : List Section) (p : Placed) : Type 0 where
  pub moves : Moves out cursor p.out p.cursor
  pub stored : AllStored p.out cursor p.cursor (named ss) p.sections
  pub index : p.shstrndx ≡ names_index ss
  pub index_lt : p.shstrndx < 0x10000

pub build_sections-Sectioned :
    (out : Bytes) (cursor : ℕ) (ss : List Section) {p : Placed}
    → cursor ≤ max_image
    → build_sections out cursor ss ≡ ok p
    → Sectioned out cursor ss p
unfolding build_sections
build_sections-Sectioned out cursor [] c h =
    subst (Sectioned out cursor []) (ok-injective h) (record {
      moves = Moves-refl out cursor c;
      stored = tt;
      index = refl;
      index_lt = omega arith;
    })
build_sections-Sectioned out cursor (s ∷ ss) c h =
    let (r, rest, placing) = bind-ok-parts (place_sections out cursor (named (s ∷ ss))) _ h in
    let m = place_sections-Stored out cursor (named (s ∷ ss)) c placing in
    subst (Sectioned out cursor (s ∷ ss)) (ok-injective rest)
      (record { moves = m.0; stored = m.1; index = refl; index_lt = ensure_shstrtab-lt (s ∷ ss) })

pub build_sections-bare :
    (out : Bytes) (cursor : ℕ) (ss : List Section) {p : Placed}
    → build_sections out cursor ss ≡ ok p
    → ss ≡ []
    → length p.sections ≡ 0
unfolding build_sections
build_sections-bare out cursor [] h bare =
    subst (λ (p : Placed). length p.sections ≡ 0) (ok-injective h) refl
build_sections-bare out cursor (s ∷ ss) h bare = absurd (cc)

-- The section header table only adds to the buffer behind the cursor.
pub record Finished (p : Placed) (e : Endian) (class : ElfClass) (out out' : Bytes) (shoff : ℕ)
    : Type 0 where
  pub keeps : Keeps 0 p.cursor out out'
  pub bounded : length out ≤ max_image → length out' ≤ max_image
  pub offset : shoff ≤ max_image
  pub table :
      (length p.sections ≡ 0)
      ⊎ ((p.cursor ≤ shoff) × Holds out' shoff (write_section_table p.sections [] e class))

pub finish_sections-Finished :
    (p : Placed) (out : Bytes) (e : Endian) (class : ElfClass) {r : Bytes × ℕ}
    → p.cursor ≤ max_image
    → finish_sections p out e class ≡ ok r
    → Finished p e class out r.0 r.1
unfolding finish_sections
finish_sections-Finished p out e class c h = elim (Bool-cases (length p.sections == 0)) [
  | inl none' ↦
      subst (λ (r : Bytes × ℕ). Finished p e class out r.0 r.1) (ok-injective (rw none' at h))
        (record {
          keeps = Keeps-refl 0 p.cursor out;
          bounded = λ b. b;
          offset = omega arith;
          table = inl (==→eq _ 0 none');
        })
  | inr some' ↦
      let table = write_section_table p.sections [] e class in
      let shoff = align_up p.cursor 8 in
      let (out', rest, wrote) = bind-ok-parts (write_at out shoff table) _ (rw some' at h) in
      let w = write_at-Wrote out shoff table wrote in
      let ge = align_up-ge p.cursor 8 (omega arith) in
      let m = Wrote-Moves ge w in
      subst (λ (r : Bytes × ℕ). Finished p e class out r.0 r.1) (ok-injective rest)
        (record {
          keeps = m.keeps;
          bounded = m.bounded;
          offset = omega (arith, w.bound);
          table = inr (ge, w.held);
        })
]

-- The file header replaces the first bytes.
pub record Headed (out : Bytes) (end : ℕ) (bs : Bytes) (out' : Bytes) : Type 0 where
  pub measured : length bs ≡ end
  pub held : Holds out' 0 bs
  pub keeps : (hi : ℕ) → Keeps end hi out out'
  pub size : length out' ≡ length out

pub splice-Headed :
    (out bs : Bytes) → length bs ≤ length out → Headed out (length bs) bs (splice out 0 bs)
splice-Headed out bs room =
    let size = length-splice out 0 bs (omega arith) in
    record {
      measured = refl;
      held = record {
        room = omega (arith, size);
        same = λ i h. splice-inside out 0 bs (omega arith) i h;
      };
      keeps = λ hi. record {
        longer = omega (arith, size);
        same = λ j a b c. splice-after out 0 bs (omega arith) j (omega arith);
      };
      size = size;
    }

copy_head-room :
    (out : Bytes) (end : ℕ) (bs : Bytes) {out' : Bytes}
    → copy_head out end bs ≡ ok out'
    → (end ≤ length out) × (length bs ≡ end) × (splice out 0 bs ≡ out')
unfolding copy_head
copy_head-room out end bs h = elim (Bool-cases (leb end (length out) && length bs == end)) [
  | inl good ↦ (ground arith, ground arith, ok-injective (rw good at h))
  | inr bad ↦ absurd (let e = rw bad at h in cc)
]

pub copy_head-Headed :
    (out : Bytes) (end : ℕ) (bs : Bytes) {out' : Bytes}
    → copy_head out end bs ≡ ok out'
    → Headed out end bs out'
copy_head-Headed out end bs h =
    let (room, measured, e) = copy_head-room out end bs h in
    subst (Headed out end bs) e (
      subst (λ (n : ℕ). Headed out n bs (splice out 0 bs)) measured
        (splice-Headed out bs (omega arith)))

-- The written program headers alone, and how long they are.
pub write_table-onto :
    (hs : List ProgramHeader) (e : Endian) (class : ElfClass)
    → write_table hs [] e class ≡ table_onto hs e class []
write_table-onto hs e class =
    sym (append-nil (write_table hs [] e class)) ∙ write_table-append hs [] e class []

length-table_onto :
    (hs : List ProgramHeader) (e : Endian) (class : ElfClass)
    → length (table_onto hs e class []) ≡ Program.size class * length hs
length-table_onto [] e class = omega arith
length-table_onto (h ∷ hs) e class =
    ap length (sym (concat-append (Program.fields h e class) (table_onto hs e class [])))
    ∙ length-append (concat (Program.fields h e class)) (table_onto hs e class [])
    ∙ grind (arith, length-fields h e class, length-table_onto hs e class)

pub length-write_table :
    (hs : List ProgramHeader) (e : Endian) (class : ElfClass)
    → length (write_table hs [] e class) ≡ Program.size class * length hs
length-write_table hs e class =
    ap length (write_table-onto hs e class) ∙ length-table_onto hs e class
