-- ===== src/Elf/Edit/Sections.antt =====
-- What a write leaves in the sections that hold its address.
use elfex.Common.{
  ℕ, ◌+◌, ◌-◌, ◌≤◌, ◌<◌, ◌≡◌, refl, ap, arith, Bytes, List, [], ◌∷◌, none, some, Option-cases, true,
  false, inl, inr, map, length, take, drop, take-append, get_elem?, zero, suc, subst, le→leb,
}
use elfex.Common.Outcome.{checked_add, checked_add-some, u64_mod}
use elfex.Common.Slices.{splice}
use elfex.Elf.{ElfImage}
use elfex.Elf.Edit.{patch, write_segments, write_section, write_at_ioff}
use elfex.Elf.Edit.ReadBack.{drop-splice}
use elfex.Elf.Inspect.{image_base}
use elfex.Section
use elfex.Section.{Section}

patch-splice :
    (bytes : Bytes) (start : ℕ) (new : Bytes)
    → start + length new ≤ length bytes
    → length bytes < u64_mod
    → patch bytes start new ≡ some (splice bytes start new)
unfolding patch
patch-splice bytes start new room fits =
    rw
      (
        checked_add-some start (length new) (omega (arith, room, fits)),
        le→leb (start + length new) (length bytes) room,
        patch,
      )
      refl

-- The section holds file bytes for the whole range that is written.
abbrev pub TakesPatch : ℕ → Bytes → Section → Type 0
TakesPatch vaddr new s =
    (Section.contains_vaddr s vaddr ≡ true)
    × (Section.is_nobits s.header ≡ false)
    × ((vaddr - s.header.addr) + length new ≤ length s.bytes)
    × (length s.bytes < u64_mod)

write_section-bytes :
    (vaddr : ℕ) (new : Bytes) (s : Section)
    → TakesPatch vaddr new s
    → take (length new) (drop (vaddr - s.header.addr) (write_section vaddr new s).bytes) ≡ new
unfolding write_section
write_section-bytes vaddr new s (holds, kept, room, fits) =
    let start : ℕ = vaddr - s.header.addr in
    rw
      (
        holds,
        kept,
        patch-splice s.bytes start new room fits,
        write_section,
        drop-splice s.bytes start new (omega (arith, room)),
      )
      (take-append (length new) new (drop (start + length new) s.bytes) refl)

get_elem?-map :
    (vaddr : ℕ) (new : Bytes) (ss : List Section) (i : ℕ) (s : Section)
    → get_elem? ss i ≡ some s
    → get_elem? (map (write_section vaddr new) ss) i ≡ some (write_section vaddr new s)
get_elem?-map vaddr new [] i s e = cc
get_elem?-map vaddr new (x ∷ ss) zero s e =
    ap (λ o. elim o [ none ↦ none | some y ↦ some (write_section vaddr new y) ]) e
get_elem?-map vaddr new (x ∷ ss) (suc i) s e = get_elem?-map vaddr new ss i s e

-- After a successful write, every section that is allocated at the address, is not `SHT_NOBITS`
-- and has file bytes for the whole range holds the written bytes there, at its place among the
-- sections.
pub write_at_ioff-sections :
    (image image' : ElfImage) (ioff vaddr : ℕ) (new : Bytes) (i : ℕ) (s : Section)
    → write_at_ioff image ioff new ≡ some image'
    → checked_add (image_base image) ioff ≡ some vaddr
    → get_elem? image.sections i ≡ some s
    → TakesPatch vaddr new s
    → (s' : Section) × (get_elem? image'.sections i ≡ some s')
      × (take (length new) (drop (vaddr - s.header.addr) s'.bytes) ≡ new)
unfolding write_at_ioff
write_at_ioff-sections image image' ioff vaddr new i s e at found takes =
    elim (Option-cases (write_segments image.segments vaddr new)) [
      | inl refused ↦ cc
      | inr (ss, done) ↦
          let same : map (write_section vaddr new) image.sections ≡ image'.sections =
            ground arith in
          (
            write_section vaddr new s,
            subst (λ sections. get_elem? sections i ≡ some (write_section vaddr new s)) same
                (get_elem?-map vaddr new image.sections i s found),
            write_section-bytes vaddr new s takes,
          )
    ]
