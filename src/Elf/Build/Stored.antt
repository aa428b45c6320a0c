-- ===== src/Elf/Build/Stored.antt =====
-- Where the sections stand in the output buffer.
use elfex.Common.{
  ℕ, ◌+◌, ◌≤◌, ◌≡◌, refl, subst, arith, Bytes, List, [], ◌∷◌, inl, inr, ◌⊎◌, Bool-cases, ==→eq,
  true, false, length, ◌==◌, max,
}
use elfex.Common.Outcome.{ok, bind-ok-parts, ok-injective}
use elfex.Elf.{align_up}
use elfex.Elf.Align.{align_up-ge}
use elfex.Elf.Build.{place_section, place_sections}
use elfex.Elf.Build.Buffer.{Holds, Keeps, Keeps-refl, Keeps-narrow, Holds-Keeps, write_at-Wrote}
use elfex.Elf.Build.Names.{ensure_shstrtab, assign_name_offsets}
use elfex.Elf.Build.Output.{max_image, write_at}
use elfex.Elf.Build.Segments.{Moves, Moves-refl, Moves-trans, Wrote-Moves}
use elfex.Section.{Section, is_nobits}

-- The sections that are written, if there are any: those of the image, named, with the table of
-- their names.
abbrev pub named : List Section → List Section
named [] = []
named (s ∷ ss) = assign_name_offsets (ensure_shstrtab (s ∷ ss)).0

-- The index of that table.
abbrev pub names_index : List Section → ℕ
names_index [] = 0
names_index (s ∷ ss) = (ensure_shstrtab (s ∷ ss)).1

-- A section's bytes stand between two offsets, where its written header says.
pub record Written (out : Bytes) (lo hi : ℕ) (s p : Section) : Type 0 where
  pub bits : is_nobits s.header ≡ false
  pub header :
      p ≡ record s { header = record s.header { offset = p.header.offset; size = length s.bytes } }
  pub behind : lo ≤ p.header.offset
  pub limit : p.header.offset + length s.bytes ≤ hi
  pub held : Holds out p.header.offset s.bytes

-- A section without file bytes is left as it is, one that is empty has its size cleared, and any
-- other is written.
abbrev pub StoredAs : Bytes → ℕ → ℕ → Section → Section → Type 0
StoredAs out lo hi s p =
    ((is_nobits s.header ≡ true) × (p ≡ s))
    ⊎ (((is_nobits s.header ≡ false)
          × (length s.bytes ≡ 0)
          × (p ≡ record s { header = record s.header { size = 0 } }))
        ⊎ Written out lo hi s p)

abbrev pub AllStored : Bytes → ℕ → ℕ → List Section → List Section → Type 0
AllStored out lo hi [] [] = Unit {0}
AllStored out lo hi [] (p ∷ ps) = ⊥
AllStored out lo hi (s ∷ ss) [] = ⊥
AllStored out lo hi (s ∷ ss) (p ∷ ps) = StoredAs out lo hi s p × AllStored out lo hi ss ps

StoredAs-Keeps :
    {out out' : Bytes} {lo hi lo' hi' : ℕ} (s p : Section)
    → lo' ≤ lo
    → hi ≤ hi'
    → Keeps lo hi out out'
    → StoredAs out lo hi s p
    → StoredAs out' lo' hi' s p
StoredAs-Keeps s p l u k (inl h) = inl h
StoredAs-Keeps s p l u k (inr (inl h)) = inr (inl h)
StoredAs-Keeps s p l u k (inr (inr w)) = inr (
    inr (record {
      bits = w.bits;
      header = w.header;
      behind = omega (arith, w.behind);
      limit = omega (arith, w.limit);
      held = Holds-Keeps w.held k w.behind w.limit;
    }))

pub AllStored-Keeps :
    {out out' : Bytes} {lo hi lo' hi' : ℕ} (ss ps : List Section)
    → lo' ≤ lo
    → hi ≤ hi'
    → Keeps lo hi out out'
    → AllStored out lo hi ss ps
    → AllStored out' lo' hi' ss ps
AllStored-Keeps [] [] l u k h = tt
AllStored-Keeps [] (p ∷ ps) l u k h = absurd h
AllStored-Keeps (s ∷ ss) [] l u k h = absurd h
AllStored-Keeps (s ∷ ss) (p ∷ ps) l u k h =
    (StoredAs-Keeps s p l u k h.0, AllStored-Keeps ss ps l u k h.1)

pub AllStored-length :
    (out : Bytes) (lo hi : ℕ) (ss ps : List Section)
    → AllStored out lo hi ss ps
    → length ps ≡ length ss
AllStored-length out lo hi [] [] h = refl
AllStored-length out lo hi [] (p ∷ ps) h = absurd h
AllStored-length out lo hi (s ∷ ss) [] h = absurd h
AllStored-length out lo hi (s ∷ ss) (p ∷ ps) h = omega (arith, AllStored-length out lo hi ss ps h.1)

abbrev OneStored : Bytes → ℕ → Section → Section × Bytes × ℕ → Type 0
OneStored out cursor s r = Moves out cursor r.1 r.2 × StoredAs r.1 cursor r.2 s r.0

place_section-Stored :
    (out : Bytes) (cursor : ℕ) (s : Section) {r : Section × Bytes × ℕ}
    → cursor ≤ max_image
    → place_section out cursor s ≡ ok r
    → OneStored out cursor s r
unfolding place_section
place_section-Stored out cursor s c h = elim (Bool-cases (is_nobits s.header)) [
  | inl no_bits ↦
      subst (OneStored out cursor s) (ok-injective (rw no_bits at h))
        (Moves-refl out cursor c, inl (no_bits, refl))
  | inr bits ↦ elim (Bool-cases (length s.bytes == 0)) [
    | inl none' ↦
        subst (OneStored out cursor s) (ok-injective (rw (bits, none') at h))
          (Moves-refl out cursor c, inr (inl (bits, ==→eq _ 0 none', refl)))
    | inr some' ↦
        let e = rw (bits, some') at h in
        let at = align_up cursor (max s.header.addralign 1) in
        let ge = align_up-ge cursor (max s.header.addralign 1) (omega arith) in
        let (out', rest, wrote) = bind-ok-parts (write_at out at s.bytes) _ e in
        let w = write_at-Wrote out at s.bytes wrote in
        subst (OneStored out cursor s) (ok-injective rest) (
          Wrote-Moves ge w,
          inr (
              inr (record {
                bits = bits;
                header = refl;
                behind = ge;
                limit = omega arith;
                held = w.held;
              })),
        )
  ]
]

abbrev pub ManyStored : Bytes → ℕ → List Section → List Section × Bytes × ℕ → Type 0
ManyStored out cursor ss r = Moves out cursor r.1 r.2 × AllStored r.1 cursor r.2 ss r.0

pub place_sections-Stored :
    (out : Bytes) (cursor : ℕ) (ss : List Section) {r : List Section × Bytes × ℕ}
    → cursor ≤ max_image
    → place_sections out cursor ss ≡ ok r
    → ManyStored out cursor ss r
unfolding place_sections
place_sections-Stored out cursor [] c h =
    subst (ManyStored out cursor []) (ok-injective h) (Moves-refl out cursor c, tt)
place_sections-Stored out cursor (s ∷ ss) c h =
    let (one, rest, first) = bind-ok-parts (place_section out cursor s) _ h in
    let (more, last, second) = bind-ok-parts (place_sections one.1 one.2 ss) _ rest in
    let p = place_section-Stored out cursor s c first in
    let m = place_sections-Stored one.1 one.2 ss p.0.limit second in
    subst (ManyStored out cursor (s ∷ ss)) (ok-injective last) (
      Moves-trans p.0 m.0,
      (
        StoredAs-Keeps s one.0 (omega arith) m.0.forward
            (Keeps-narrow (omega arith) (omega arith) m.0.keeps) p.1,
        AllStored-Keeps ss more.0 p.0.forward (omega arith) (Keeps-refl _ _ more.1) m.1,
      ),
    )
