-- ===== src/Elf/Build/Moves.antt =====
-- src/elf/build.rs: words of a mapped image that move one behind the other.
use elfex.Common.{
  ℕ, zero, suc, ◌+◌, ◌-◌, ◌%◌, ◌^◌, ◌≤◌, ◌<◌, ◌≡◌, refl, ap, ◌∙◌, arith, Bytes, List, [], ◌∷◌, inl,
  inr, ◌⊎◌, if◌then◌else◌, All, length, take, drop, get_elem?,
}
use elfex.Elf.{ElfImage}
use elfex.Elf.Build.Mapped.{is_relative}
use elfex.Elf.Build.Relocated.{Moved, relative_width}
use elfex.Elf.Inspect.{image_base}
use elfex.Ident.Endian.{word}
use elfex.Reloc.{RelocationEntry, relocation_kind}

-- The bytes of a window of two strings of one length agree where those at its places do.
window-ext :
    (width start : ℕ) (xs ys : Bytes)
    → length xs ≡ length ys
    → ((j : ℕ) → start ≤ j → j < start + width → get_elem? xs j ≡ get_elem? ys j)
    → take width (drop start xs) ≡ take width (drop start ys)
window-ext zero start xs ys l h = refl
window-ext (suc width) start [] (y ∷ ys) l h = absurd (omega (arith, l))
window-ext (suc width) start (x ∷ xs) [] l h = absurd (omega (arith, l))
window-ext (suc width) start [] [] l h = refl
window-ext (suc width) zero (x ∷ xs) (y ∷ ys) l h =
    let e = h 0 (omega arith) (omega arith) in
    let same : x ≡ y = cc in
    rw same (
      ap (◌∷◌ y) (
        window-ext width zero xs ys (omega (arith, l))
          (λ j a b. h (suc j) (omega arith) (omega arith))))
window-ext (suc width) (suc start) (x ∷ xs) (y ∷ ys) l h =
    window-ext (suc width) start xs ys (omega (arith, l))
      (λ j a b. h (suc j) (omega arith) (omega arith))

module _ (image : ElfImage) where
  abbrev pub width : ℕ
  width = relative_width image.header.machine

  -- Where the word of an entry lies in the mapped image, and what is stored there.
  abbrev pub place : RelocationEntry → ℕ
  place entry = entry.offset - image_base image

  abbrev pub stored : RelocationEntry → Bytes → ℕ
  stored entry mapped = word image.ident.encoding (take width (drop (place entry) mapped))

  -- The entries of the relative kind, in their order.
  abbrev pub relative_entries : List RelocationEntry → List RelocationEntry
  relative_entries [] = []
  relative_entries (entry ∷ entries) =
      if is_relative (relocation_kind image.header.machine entry.r_type)
      then entry ∷ relative_entries entries
      else relative_entries entries

  -- The word of an entry lies in a mapped image of the length; two words lie apart.
  abbrev pub Inside : ℕ → RelocationEntry → Type 0
  Inside size entry = (image_base image ≤ entry.offset) × (place entry + width ≤ size)

  abbrev pub Apart : RelocationEntry → RelocationEntry → Type 0
  Apart a b = (place a + width ≤ place b) ⊎ (place b + width ≤ place a)

  abbrev pub Beside : ℕ → RelocationEntry → Type 0
  Beside j entry = (j < place entry) ⊎ (place entry + width ≤ j)

  -- Every word has moved by the difference, and all other bytes stay.
  pub record AllMoved (delta : ℕ) (entries : List RelocationEntry) (old new : Bytes) : Type 0 where
    pub size : length new ≡ length old
    pub moved : All (λ entry. stored entry new ≡ (stored entry old + delta) % 256 ^ width) entries
    pub kept : (j : ℕ) → All (Beside j) entries → get_elem? new j ≡ get_elem? old j

  all-Beside :
      (a : RelocationEntry) (entries : List RelocationEntry) (j : ℕ)
      → place a ≤ j
      → j < place a + width
      → All (Apart a) entries
      → All (Beside j) entries
  all-Beside a [] j l h r = tt
  all-Beside a (b ∷ entries) j l h (r, rs) = (
    elim r [ inl p ↦ inl (omega arith) | inr p ↦ inr (omega arith) ],
    all-Beside a entries j l h rs,
  )

  -- What was shown from the bytes behind a first move holds from those before it.
  stored-back :
      (delta : ℕ) (a : RelocationEntry) (entries : List RelocationEntry) (old mid new : Bytes)
      → Moved image.ident.encoding width (place a) delta old mid
      → All (Apart a) entries
      → All (λ entry. stored entry new ≡ (stored entry mid + delta) % 256 ^ width) entries
      → All (λ entry. stored entry new ≡ (stored entry old + delta) % 256 ^ width) entries
  stored-back delta a [] old mid new m r h = tt
  stored-back delta a (b ∷ entries) old mid new m (r, rs) (h, hs) =
      let same = window-ext width (place b) mid old m.size (λ j low high.
        m.kept j (elim r [ inl p ↦ inr (omega arith) | inr p ↦ inl (omega arith) ])) in
      (
        h ∙ ap (λ (bytes : Bytes). (word image.ident.encoding bytes + delta) % 256 ^ width) same,
        stored-back delta a entries old mid new m rs hs,
      )

  pub AllMoved-cons :
      (delta : ℕ) (a : RelocationEntry) (entries : List RelocationEntry) (old mid new : Bytes)
      → Moved image.ident.encoding width (place a) delta old mid
      → All (Apart a) entries
      → AllMoved delta entries mid new
      → AllMoved delta (a ∷ entries) old new
  AllMoved-cons delta a entries old mid new m r h = record {
    size = h.size ∙ m.size;
    moved = (
      ap (word image.ident.encoding) (
            window-ext width (place a) new mid h.size
              (λ j low high. h.kept j (all-Beside a entries j low high r)))
          ∙ m.moved,
      stored-back delta a entries old mid new m r h.moved,
    );
    kept = λ j (b, bs). h.kept j bs ∙ m.kept j b;
  }
