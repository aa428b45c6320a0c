-- ===== src/Elf/Edit/Written.antt =====
-- What a successful write does to the list of segments.
use elfex.Common.{
  ℕ, ◌+◌, ◌-◌, ◌≤◌, ◌≡◌, refl, subst, arith, Bytes, List, [], ◌∷◌, some, Option-cases, true, false,
  Bool-cases, inl, inr, length,
}
use elfex.Common.Outcome.{checked_add}
use elfex.Common.Slices.{splice}
use elfex.Elf.Edit.{patch, is_target, patch_segment, write_segments}
use elfex.Elf.Inspect.{load_records}
use elfex.Program.{Segment}

-- `s'` is `s` with the new bytes at the place of `vaddr`, where there was room for them.
pub record Patched (vaddr : ℕ) (new : Bytes) (s s' : Segment) : Type 0 where
  pub room : vaddr - s.header.vaddr + length new ≤ length s.bytes
  pub result : s' ≡ record s { bytes = splice s.bytes (vaddr - s.header.vaddr) new }

-- The first segment that takes a write has been patched, and the others are as they were.
pub data Written (vaddr : ℕ) (new : Bytes) : List Segment → List Segment → Type 0 where
  here :
      (s s' : Segment) (ss : List Segment)
      → is_target vaddr s ≡ true
      → Patched vaddr new s s'
      → Written vaddr new (s ∷ ss) (s' ∷ ss)
  there :
      (s : Segment) (ss ss' : List Segment)
      → is_target vaddr s ≡ false
      → Written vaddr new ss ss'
      → Written vaddr new (s ∷ ss) (s ∷ ss')

patch-some :
    (bytes : Bytes) (start : ℕ) (new out : Bytes)
    → patch bytes start new ≡ some out
    → (start + length new ≤ length bytes) × (out ≡ splice bytes start new)
unfolding patch checked_add
patch-some bytes start new out e = ground arith

patch_segment-Patched :
    (s s' : Segment) (vaddr : ℕ) (new : Bytes)
    → patch_segment s vaddr new ≡ some s'
    → Patched vaddr new s s'
unfolding patch_segment
patch_segment-Patched s s' vaddr new e =
    elim (Option-cases (patch s.bytes (vaddr - s.header.vaddr) new)) [
      | inl refused ↦ cc
      | inr (out, done) ↦ ground (arith, patch-some s.bytes (vaddr - s.header.vaddr) new out done)
    ]

pub write_segments-Written :
    (ss ss' : List Segment) (vaddr : ℕ) (new : Bytes)
    → write_segments ss vaddr new ≡ some ss'
    → Written vaddr new ss ss'
unfolding write_segments
write_segments-Written [] ss' vaddr new e = cc
write_segments-Written (s ∷ ss) ss' vaddr new e = elim (Bool-cases (is_target vaddr s)) [
  | inl hit ↦ elim (Option-cases (patch_segment s vaddr new)) [
    | inl refused ↦ cc
    | inr (s', done) ↦
        let q : (s' ∷ ss) ≡ ss' = cc in
        subst (Written vaddr new (s ∷ ss)) q
          (here s s' ss hit (patch_segment-Patched s s' vaddr new done))
  ]
  | inr miss ↦ elim (Option-cases (write_segments ss vaddr new)) [
    | inl refused ↦ cc
    | inr (more, done) ↦
        let q : (s ∷ more) ≡ ss' = cc in
        subst (Written vaddr new (s ∷ ss)) q
          (there s ss more miss (write_segments-Written ss more vaddr new done))
  ]
]

-- The headers stay, and with them the geometry of the image.
pub Written-load_records :
    {vaddr : ℕ} {new : Bytes} {ss ss' : List Segment}
    → Written vaddr new ss ss'
    → load_records ss' ≡ load_records ss
unfolding load_records
Written-load_records (here s s' ss hit p) = rw p.result refl
Written-load_records (there s ss ss' miss w) = rw (Written-load_records w) refl
