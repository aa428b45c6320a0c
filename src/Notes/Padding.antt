-- ===== src/Notes/Padding.antt =====
-- Padding to four bytes, and the parts of a serialized note.
use elfex.Common.{
  ℕ, zero, suc, ◌+◌, ◌%◌, ◌<◌, ◌≤◌, ◌≡◌, ◌≢◌, ==→eq, refl, sym, ap, ◌∙◌, arith, Bytes, List, [],
  ◌∷◌, ◌++◌, append-nil, append_assoc, true, lt→ltb, length, replicate, length-append,
  length-replicate, Bool-cases, inl, inr, ◌==◌, concat, concat_onto,
}
use elfex.Builder.Serialize.{NoteSpec, pad_loop, serialize_note, u32_or_zero}
use elfex.Ident.Endian.{Endian, u32_bytes}
use elfex.Ident.Words.{length-word_bytes}
use elfex.Notes.{strip_nul, padding4}
use elfex.StringTable.{is_utf8}

padding4-zero : (n : ℕ) → n % 4 ≡ 0 → padding4 n ≡ 0
unfolding padding4
padding4-zero n h = omega arith

padding4-suc : (n m : ℕ) → n % 4 ≢ 0 → m ≡ n + 1 → padding4 n ≡ suc (padding4 m)
unfolding padding4
padding4-suc n m h q = omega arith

-- What is aligned in front does not matter.
padding4-aligned : (n m : ℕ) → n % 4 ≡ 0 → padding4 (n + m) ≡ padding4 m
unfolding padding4
padding4-aligned n m h = omega arith

aligned_by_padding4 : (n : ℕ) → (n + padding4 n) % 4 ≡ 0
unfolding padding4
aligned_by_padding4 n = omega arith

pad_loop-replicate :
    (fuel : ℕ) (out : Bytes)
    → padding4 (length out) ≤ fuel
    → pad_loop fuel out ≡ out ++ replicate (padding4 (length out)) 0
unfolding pad_loop
pad_loop-replicate zero out h =
    sym (append-nil out) ∙ ap (λ (k : ℕ). out ++ replicate k 0) {x = 0} (omega arith)
pad_loop-replicate (suc fuel) out h = elim (Bool-cases (length out % 4 == 0)) [
  | inl aligned ↦
      let e = padding4-zero (length out) (==→eq _ 0 aligned) in
      rw (aligned, pad_loop, e, append-nil)
  | inr odd ↦
      let e =
        padding4-suc (length out) (length (out ++ 0 ∷ [])) (ground arith)
          (length-append out (0 ∷ [])) in
      rw (odd, pad_loop)
        (pad_loop-replicate fuel (out ++ 0 ∷ []) (omega arith)
          ∙ append_assoc out (0 ∷ []) _
          ∙ ap (λ (k : ℕ). out ++ replicate k 0) (sym e))
]

pad : (out : Bytes) → pad_loop 3 out ≡ out ++ replicate (padding4 (length out)) 0
unfolding padding4
pad out = pad_loop-replicate 3 out (omega arith)

pub strip_nul-append : (name : Bytes) → strip_nul (name ++ (0 ∷ [])) ≡ name
unfolding strip_nul
strip_nul-append [] = refl
strip_nul-append (b ∷ []) = refl
strip_nul-append (b ∷ c ∷ bs) = ap (◌∷◌ b) (strip_nul-append (c ∷ bs))

-- What the fields of a note can hold: its name is text, and the sizes and the type are below 2^32.
pub record IsWritable (spec : NoteSpec) : Type 0 where
  pub name_utf8 : is_utf8 spec.name ≡ true
  pub name_fits : length spec.name + 1 < 0x100000000
  pub descriptor_fits : length spec.descriptor < 0x100000000
  pub type_lt : spec.note_type < 0x100000000

-- The parts of a serialized note.
abbrev pub padded_name : NoteSpec → Bytes
padded_name spec = spec.name ++ (0 ∷ [])

abbrev pub name_pad : NoteSpec → Bytes
name_pad spec = replicate (padding4 (length (padded_name spec))) 0

abbrev pub descriptor_pad : NoteSpec → Bytes
descriptor_pad spec = replicate (padding4 (length spec.descriptor)) 0

-- A note up to the end of its descriptor.
abbrev pub core_parts : NoteSpec → Endian → List Bytes
core_parts spec e =
    u32_bytes e (length spec.name + 1)
    ∷ u32_bytes e (length spec.descriptor)
    ∷ u32_bytes e spec.note_type
    ∷ padded_name spec
    ∷ name_pad spec
    ∷ spec.descriptor
    ∷ []

-- Both paddings of a record, whose three words take twelve bytes.
padded_twice :
    (a b c n d : Bytes)
    → length a ≡ 4
    → length b ≡ 4
    → length c ≡ 4
    → pad_loop 3 (pad_loop 3 (a ++ (b ++ (c ++ n))) ++ d)
      ≡ a
        ++ (b
            ++ (c
                ++ (n
                    ++ (replicate (padding4 (length n)) 0
                        ++ (d ++ (replicate (padding4 (length d)) 0 ++ []))))))
padded_twice a b c n d p q r =
    rw (pad head, e1, pad ((head ++ replicate (padding4 (length n)) 0) ++ d), e2)
      (simp (append_assoc, append-nil))
  where
    head : Bytes
    head = a ++ (b ++ (c ++ n))

    long : length head ≡ 12 + length n
    long = simp (length-append, p, q, r) (omega arith)

    e1 : padding4 (length head) ≡ padding4 (length n)
    e1 = ap padding4 long ∙ padding4-aligned 12 (length n) refl

    front :
        length (head ++ replicate (padding4 (length n)) 0) ≡ length head + padding4 (length head)
    front =
        length-append head _
        ∙ ap (λ (k : ℕ). length head + k) (length-replicate (padding4 (length n)) 0 ∙ sym e1)

    e2 : padding4 (length ((head ++ replicate (padding4 (length n)) 0) ++ d)) ≡ padding4 (length d)
    e2 =
        ap padding4 (length-append (head ++ replicate (padding4 (length n)) 0) d)
        ∙ padding4-aligned _ (length d)
            (ap (λ (k : ℕ). k % 4) front ∙ aligned_by_padding4 (length head))

pub serialize_note-parts :
    (spec : NoteSpec) (e : Endian)
    → IsWritable spec
    → serialize_note spec e ≡ concat_onto (core_parts spec e) (descriptor_pad spec ++ [])
unfolding serialize_note u32_or_zero
serialize_note-parts spec e w =
    rw (lt→ltb _ _ w.name_fits, lt→ltb _ _ w.descriptor_fits)
      (padded_twice (u32_bytes e (length spec.name + 1)) (u32_bytes e (length spec.descriptor))
        (u32_bytes e spec.note_type) (padded_name spec) spec.descriptor (length-word_bytes e 4 _)
        (length-word_bytes e 4 _) (length-word_bytes e 4 _))

pub length-core_parts :
    (spec : NoteSpec) (e : Endian) (n d : ℕ)
    → n ≡ length spec.name + 1
    → d ≡ length spec.descriptor
    → length (concat (core_parts spec e)) ≡ 12 + n + padding4 n + d
length-core_parts spec e n d p q =
    simp (length-append, length-word_bytes, length-replicate, ← p, ← q) (omega arith)
