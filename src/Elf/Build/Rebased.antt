-- ===== src/Elf/Build/Rebased.antt =====
-- src/elf/build.rs: the relative relocations of all tables, applied one behind the other.
use elfex.Common.{
  ℕ, ◌+◌, ◌%◌, ◌^◌, ◌<◌, ◌≡◌, refl, sym, ◌∙◌, subst, arith, Bytes, List, [], ◌∷◌, ◌++◌, true, false,
  inl, inr, Bool-cases, All, length, get_elem?,
}
use elfex.Common.Outcome.{Outcome, ok, err, panic, stuck, ◌>>=◌, u64_mod}
use elfex.Common.Pairwise.{Pairwise, All-map}
use elfex.Elf.{ElfImage}
use elfex.Elf.Build.Mapped.{
  is_relative, relocate, relocate_entries, relocate_tables, base_change, apply_relative_relocations,
}
use elfex.Elf.Build.Moves.{
  width, stored, relative_entries, Inside, Apart, Beside, AllMoved, AllMoved-cons,
}
use elfex.Elf.Build.Relocated.{relative_width-IsWord, IsWord, relocate-Moved}
use elfex.Elf.Inspect.{image_base, relocations}
use elfex.Reloc.{RelocationEntry, RelocationSection, RelocKind, relocation_kind}

-- A chain regrouped, and a chain whose rest is another function of the same values.
bind-regroup :
    (m : Outcome Bytes) (f g h : Bytes → Outcome Bytes)
    → ((b : Bytes) → h b ≡ (f b >>= g))
    → (m >>= h) ≡ ((m >>= f) >>= g)
bind-regroup (ok b) f g h e = e b
bind-regroup (err x) f g h e = refl
bind-regroup panic f g h e = refl
bind-regroup stuck f g h e = refl

bind-same :
    (m : Outcome Bytes) (f g : Bytes → Outcome Bytes)
    → ((b : Bytes) → f b ≡ g b)
    → (m >>= f) ≡ (m >>= g)
bind-same (ok b) f g e = e b
bind-same (err x) f g e = refl
bind-same panic f g e = refl
bind-same stuck f g e = refl

-- The entries of all tables, one table behind the other.
abbrev pub all_entries : List RelocationSection → List RelocationEntry
all_entries [] = []
all_entries (table ∷ tables) = table.entries ++ all_entries tables

module _ (image : ElfImage) where
  relocate-skipped :
      (delta : ℕ) (mapped : Bytes) (entry : RelocationEntry)
      → is_relative (relocation_kind image.header.machine entry.r_type) ≡ false
      → relocate image delta mapped entry ≡ ok mapped
  unfolding relocate
  relocate-skipped delta mapped entry other = rw other refl

  relative-kind : (k : RelocKind) → is_relative k ≡ true → k ≡ RelocKind.relative
  unfolding is_relative
  relative-kind RelocKind.relative h = refl
  relative-kind RelocKind.global_data h = cc
  relative-kind RelocKind.jump_slot h = cc
  relative-kind RelocKind.absolute h = cc
  relative-kind RelocKind.copy h = cc
  relative-kind RelocKind.tls h = cc
  relative-kind RelocKind.indirect_function h = cc
  relative-kind RelocKind.other h = cc

  relocate_entries-AllMoved :
      (delta : ℕ) (mapped : Bytes) (entries : List RelocationEntry)
      → All (Inside image (length mapped)) (relative_entries image entries)
      → Pairwise (Apart image) (relative_entries image entries)
      → length mapped < u64_mod
      → (out : Bytes) × (relocate_entries image delta mapped entries ≡ ok out)
        × AllMoved image delta (relative_entries image entries) mapped out
  unfolding relocate_entries
  relocate_entries-AllMoved delta mapped [] i a small =
      (mapped, refl, record { size = refl; moved = tt; kept = λ j b. refl })
  relocate_entries-AllMoved delta mapped (entry ∷ entries) i a small =
      elim (Bool-cases (is_relative (relocation_kind image.header.machine entry.r_type))) [
        | inl relative ↦
            let i' : All (Inside image (length mapped)) (entry ∷ relative_entries image entries) =
              rw relative at i in
            let a' : Pairwise (Apart image) (entry ∷ relative_entries image entries) =
              rw relative at a in
            let (mid, step, m) =
              relocate-Moved image delta mapped entry (relative-kind _ relative) i'.0.0 i'.0.1
                small in
            let (out, rest, h) =
              relocate_entries-AllMoved delta mid entries
                (subst (λ (n : ℕ). All (Inside image n) (relative_entries image entries))
                  (sym m.size) i'.1)
                a'.1 (omega (arith, m.size)) in
            rw (step, relative)
              (
                out,
                rest,
                AllMoved-cons image delta entry (relative_entries image entries) mapped mid out m
                    a'.0 h,
              )
        | inr other ↦
            let i' : All (Inside image (length mapped)) (relative_entries image entries) =
              rw other at i in
            let a' : Pairwise (Apart image) (relative_entries image entries) = rw other at a in
            rw (relocate-skipped delta mapped entry other, other)
              (relocate_entries-AllMoved delta mapped entries i' a' small)
      ]

  relocate_entries-append :
      (delta : ℕ) (mapped : Bytes) (es fs : List RelocationEntry)
      → relocate_entries image delta mapped (es ++ fs) ≡ (
          relocate_entries image delta mapped es >>= λ mapped'.
          relocate_entries image delta mapped' fs)
  unfolding relocate_entries
  relocate_entries-append delta mapped [] fs = refl
  relocate_entries-append delta mapped (e ∷ es) fs =
      bind-regroup (relocate image delta mapped e) _ _ _
        (λ mapped'. relocate_entries-append delta mapped' es fs)

  relocate_tables-entries :
      (delta : ℕ) (mapped : Bytes) (tables : List RelocationSection)
      → relocate_tables image delta mapped tables
        ≡ relocate_entries image delta mapped (all_entries tables)
  unfolding relocate_tables
  relocate_tables-entries delta mapped [] = unfold relocate_entries in refl
  relocate_tables-entries delta mapped (table ∷ tables) =
      bind-same (relocate_entries image delta mapped table.entries) _ _
        (λ mapped'. relocate_tables-entries delta mapped' tables)
      ∙ sym (relocate_entries-append delta mapped table.entries (all_entries tables))

-- The word of an entry has moved with the base, modulo its range.
abbrev pub Rebased : ElfImage → ℕ → Bytes → Bytes → RelocationEntry → Type 0
Rebased image base old new entry =
    (stored image entry new + image_base image) % 256 ^ width image
    ≡ (stored image entry old + base) % 256 ^ width image

-- The words of all entries have, and all bytes outside them and the length stay.
pub record AllRebased (image : ElfImage) (base : ℕ) (entries : List RelocationEntry)
    (old new : Bytes) : Type 0 where
  pub size : length new ≡ length old
  pub words : All (Rebased image base old new) entries
  pub kept : (j : ℕ) → All (Beside image j) entries → get_elem? new j ≡ get_elem? old j

base_change-4 :
    (base preferred old new : ℕ)
    → preferred < u64_mod
    → new ≡ (old + base_change base preferred) % 256 ^ 4
    → (new + preferred) % 256 ^ 4 ≡ (old + base) % 256 ^ 4
unfolding base_change
base_change-4 base preferred old new p e = omega (arith, e)

base_change-8 :
    (base preferred old new : ℕ)
    → preferred < u64_mod
    → new ≡ (old + base_change base preferred) % 256 ^ 8
    → (new + preferred) % 256 ^ 8 ≡ (old + base) % 256 ^ 8
unfolding base_change
base_change-8 base preferred old new p e = omega (arith, e)

base_change-word :
    (base preferred w old new : ℕ)
    → IsWord w
    → preferred < u64_mod
    → new ≡ (old + base_change base preferred) % 256 ^ w
    → (new + preferred) % 256 ^ w ≡ (old + base) % 256 ^ w
base_change-word base preferred w old new (inl four) p =
    rw four (base_change-4 base preferred old new p)
base_change-word base preferred w old new (inr eight) p =
    rw eight (base_change-8 base preferred old new p)

-- Where the relative relocations of an image lie in the mapped image, and their words apart from
-- one another, applying them for a base succeeds: the word of each, of eight bytes on x86-64 and
-- four otherwise, moves by the difference of the base and the image's own, modulo the range of the
-- word, and all bytes outside these words and the length stay. The tables of the image can be read,
-- its own base is below 2^64, and the mapped image is shorter than that.
pub apply-Rebased :
    (image : ElfImage) (mapped : Bytes) (base : ℕ) (tables : List RelocationSection)
    → relocations image ≡ ok tables
    → All (Inside image (length mapped)) (relative_entries image (all_entries tables))
    → Pairwise (Apart image) (relative_entries image (all_entries tables))
    → length mapped < u64_mod
    → image_base image < u64_mod
    → (out : Bytes) × (apply_relative_relocations image mapped base ≡ ok out)
      × AllRebased image base (relative_entries image (all_entries tables)) mapped out
unfolding apply_relative_relocations
apply-Rebased image mapped base tables read inside apart small low =
    let delta = base_change base (image_base image) in
    let entries = all_entries tables in
    let (out, done, h) = relocate_entries-AllMoved image delta mapped entries inside apart small in
    (
      out,
      rw (read, relocate_tables-entries image delta mapped tables) done,
      record {
        size = h.size;
        words =
            All-map
              (λ entry e.
                base_change-word base (image_base image) (width image) _ _
                  (relative_width-IsWord image.header.machine) low e)
              (relative_entries image entries) h.moved;
        kept = h.kept;
      },
    )
