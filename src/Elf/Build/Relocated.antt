-- ===== src/Elf/Build/Relocated.antt =====
-- A relative relocation of the mapped image: the word that moves, and the bytes that stay.
use elfex.Common.{
  ℕ, ◌+◌, ◌-◌, ◌%◌, ◌^◌, ◌≤◌, ◌<◌, ◌≡◌, refl, sym, ap, ◌∙◌, subst, arith, Bytes, inl, inr, ge→ltb,
  if◌then◌else◌, ◌==◌, Bool-cases, length, take, drop, take-append, get_elem?, ◌⊎◌,
}
use elfex.Common.Outcome.{ok, add_u64-ok, u64_mod}
use elfex.Common.Slices.{splice}
use elfex.Common.Words.{low32}
use elfex.Elf.{ElfImage}
use elfex.Elf.Build.Buffer.{splice-before, splice-after}
use elfex.Elf.Build.Loading.{checked_sub-some}
use elfex.Elf.Build.Mapped.{is_relative, moved_word, relocate_at, relocate}
use elfex.Elf.Edit.ReadBack.{length-splice, drop-splice}
use elfex.Elf.Inspect.{image_base}
use elfex.Ident.Endian.{Endian, word}
use elfex.Ident.Words.{length-word_bytes, word-word_bytes}
use elfex.Reloc.{RelocationEntry, RelocKind, relocation_kind}
use elfex.Reloc.Classes.{relocation_kind-width}

-- The word of a width at a place has moved, and all other bytes stay.
pub record Moved (e : Endian) (width start delta : ℕ) (old new : Bytes) : Type 0 where
  pub size : length new ≡ length old
  pub moved :
      word e (take width (drop start new))
      ≡ (word e (take width (drop start old)) + delta) % 256 ^ width
  pub kept : (j : ℕ) → (j < start) ⊎ (start + width ≤ j) → get_elem? new j ≡ get_elem? old j

abbrev pub IsWord : ℕ → Type 0
IsWord width = (width ≡ 4) ⊎ (width ≡ 8)

moved_word-4 :
    (e : Endian) (delta : ℕ) (stored : Bytes)
    → (length (moved_word e 4 delta stored) ≡ 4)
      × (word e (moved_word e 4 delta stored) ≡ (word e stored + delta) % 256 ^ 4)
unfolding moved_word low32
moved_word-4 e delta stored =
    (length-word_bytes e 4 _, word-word_bytes e 4 _ (omega arith) ∙ omega arith)

moved_word-8 :
    (e : Endian) (delta : ℕ) (stored : Bytes)
    → (length (moved_word e 8 delta stored) ≡ 8)
      × (word e (moved_word e 8 delta stored) ≡ (word e stored + delta) % 256 ^ 8)
unfolding moved_word
moved_word-8 e delta stored = (length-word_bytes e 8 _, word-word_bytes e 8 _ (omega arith))

splice-Moved :
    (e : Endian) (width start delta : ℕ) (old patch : Bytes)
    → length patch ≡ width
    → word e patch ≡ (word e (take width (drop start old)) + delta) % 256 ^ width
    → start + width ≤ length old
    → Moved e width start delta old (splice old start patch)
splice-Moved e width start delta old patch size value room =
    let inside : start + length patch ≤ length old = omega arith in
    record {
      size = length-splice old start patch inside;
      moved =
          ap (word e) (
            ap (take width) (drop-splice old start patch (omega arith))
            ∙ take-append width patch _ size)
          ∙ value;
      kept = λ j place. elim place [
        | inl before ↦ splice-before old start patch inside j before
        | inr after ↦ splice-after old start patch inside j (omega arith)
      ];
    }

relocate_at-Moved :
    (image : ElfImage) (delta : ℕ) (mapped : Bytes) (width start : ℕ)
    → IsWord width
    → start + width ≤ length mapped
    → length mapped < u64_mod
    → (out : Bytes) × (relocate_at image delta mapped width start ≡ ok out)
      × Moved image.ident.encoding width start delta mapped out
unfolding relocate_at
relocate_at-Moved image delta mapped width start (inl four) room fits =
    let e = image.ident.encoding in
    let stored = take 4 (drop start mapped) in
    let m = moved_word-4 e delta stored in
    subst
      (λ (w : ℕ).
        (out : Bytes) × (relocate_at image delta mapped w start ≡ ok out)
        × Moved e w start delta mapped out)
      (sym four)
      (
        _,
        rw (add_u64-ok start 4 (omega arith), ge→ltb (length mapped) (start + 4) (omega arith))
            refl,
        splice-Moved e 4 start delta mapped (moved_word e 4 delta stored) m.0 m.1 (omega arith),
      )
relocate_at-Moved image delta mapped width start (inr eight) room fits =
    let e = image.ident.encoding in
    let stored = take 8 (drop start mapped) in
    let m = moved_word-8 e delta stored in
    subst
      (λ (w : ℕ).
        (out : Bytes) × (relocate_at image delta mapped w start ≡ ok out)
        × Moved e w start delta mapped out)
      (sym eight)
      (
        _,
        rw (add_u64-ok start 8 (omega arith), ge→ltb (length mapped) (start + 8) (omega arith))
            refl,
        splice-Moved e 8 start delta mapped (moved_word e 8 delta stored) m.0 m.1 (omega arith),
      )

-- The width of the words that the relative relocations of a machine patch.
abbrev pub relative_width : ℕ → ℕ
relative_width machine = if machine == 62 then 8 else 4

pub relative_width-IsWord : (machine : ℕ) → IsWord (relative_width machine)
relative_width-IsWord machine = elim (Bool-cases (machine == 62)) [
  | inl wide ↦ rw wide (inr refl)
  | inr narrow ↦ rw narrow (inl refl)
]

-- A relative relocation whose place lies in a mapped image shorter than 2^64 bytes moves the word
-- there, of eight bytes on x86-64 and four otherwise, by the change of the base, modulo the range
-- of the word, and leaves all other bytes of the image and its length as they were.
pub relocate-Moved :
    (image : ElfImage) (delta : ℕ) (mapped : Bytes) (entry : RelocationEntry)
    → relocation_kind image.header.machine entry.r_type ≡ RelocKind.relative
    → image_base image ≤ entry.offset
    → entry.offset - image_base image + relative_width image.header.machine ≤ length mapped
    → length mapped < u64_mod
    → (out : Bytes) × (relocate image delta mapped entry ≡ ok out)
      × Moved image.ident.encoding
          (relative_width image.header.machine)
          (entry.offset - image_base image)
          delta
          mapped
          out
unfolding relocate is_relative
relocate-Moved image delta mapped entry kind above room fits =
    let machine = image.header.machine in
    let width =
      relocation_kind-width machine entry.r_type
        (λ (h : relocation_kind machine entry.r_type ≡ RelocKind.other). absurd (cc))
        (λ (h : relocation_kind machine entry.r_type ≡ RelocKind.tls). absurd (cc)) in
    rw (kind, width, checked_sub-some _ _ above)
      (relocate_at-Moved image delta mapped (relative_width machine)
        (entry.offset - image_base image) (relative_width-IsWord machine) room fits)
