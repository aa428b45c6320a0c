-- ===== src/Notes/Parse.antt =====
-- `parse_all` ends on every input.
use elfex.Common.{
  ℕ, zero, suc, ◌+◌, ◌-◌, ◌≤◌, ◌≢◌, refl, arith, Bytes, List, ◌∷◌, ◌++◌, [], some, none, Option,
  ltb, length, Bool-cases, inl, inr, ltb→ge, le-cases, le→leb, gt→leb,
}
use elfex.Common.Outcome.{
  Outcome, ok, err, panic, stuck, ◌>>=◌, sub_u64, add_u64, ok_or, ErrorKind, invalid_utf8,
}
use elfex.Common.Slices.{slice}
use elfex.Ident.Endian.{Endian, u32}
use elfex.Notes.{Note, strip_nul, padding4, parse_note, parse_loop, parse_all}
use elfex.ParseUtils.{array}
use elfex.StringTable.{from_utf8}

array-ne-stuck : (n : ℕ) (bytes : Bytes) (offset : ℕ) → array n bytes offset ≢ stuck
unfolding array add_u64
array-ne-stuck n bytes offset = ground arith

slice-ne-stuck : (bytes : Bytes) (start end : ℕ) → slice bytes start end ≢ stuck
unfolding slice
slice-ne-stuck bytes start end = ground arith

ok_or-ne-stuck {ℓ} : {A : Type ℓ} (o : Option A) (k : ErrorKind) → ok_or o k ≢ stuck
ok_or-ne-stuck none k = λ e. cc
ok_or-ne-stuck (some a) k = λ e. cc

-- What one round of the loop can answer: it ends, and it moves twelve bytes on at least.
abbrev Advances : ℕ → Outcome (Option (Note × ℕ)) → Type 0
Advances offset (ok none) = Unit
Advances offset (ok (some (note, next))) = offset + 12 ≤ next
Advances offset (err e) = Unit
Advances offset panic = Unit
Advances offset stuck = ⊥

bind-Advances {ℓ} :
    {A : Type ℓ} (offset : ℕ) (m : Outcome A) (f : A → Outcome (Option (Note × ℕ)))
    → m ≢ stuck
    → ((a : A) → Advances offset (f a))
    → Advances offset (m >>= f)
bind-Advances offset (ok a) f h k = k a
bind-Advances offset (err e) f h k = tt
bind-Advances offset panic f h k = tt
bind-Advances offset stuck f h k = h refl

parse_note-Advances :
    (bytes : Bytes) (e : Endian) (offset : ℕ) → Advances offset (parse_note bytes e offset)
unfolding parse_note
parse_note-Advances bytes e offset =
    bind-Advances offset _ _ (array-ne-stuck 4 bytes offset) λ namesz.
      bind-Advances offset _ _ (array-ne-stuck 4 bytes (offset + 4)) λ descsz.
        bind-Advances offset _ _ (array-ne-stuck 4 bytes (offset + 8)) λ type.
          let desc_start : ℕ = offset + 12 + u32 e namesz + padding4 (u32 e namesz) in
          elim (Bool-cases (ltb (length bytes) (desc_start + u32 e descsz))) [
            | inl past ↦ rw past tt
            | inr inside ↦ rw inside (
                bind-Advances offset _ _ (slice-ne-stuck bytes _ _) λ padded_name.
                  bind-Advances offset _ _
                    (ok_or-ne-stuck (from_utf8 (strip_nul padded_name)) invalid_utf8)
                    λ name.
                      bind-Advances offset (slice bytes desc_start (desc_start + u32 e descsz)) _
                        (slice-ne-stuck bytes _ _) λ descriptor. omega arith)
          ]

-- The rest of a round of the loop, behind the note that it parsed.
abbrev after_note : ℕ → Bytes → Endian → List Note → Option (Note × ℕ) → Outcome (List Note)
after_note fuel bytes e notes parsed = elim parsed [
  | none ↦ ok notes
  | some (note, next) ↦ parse_loop fuel bytes e next (notes ++ (note ∷ []))
]

after_note-ne-stuck :
    (fuel : ℕ) (bytes : Bytes) (e : Endian) (notes : List Note) (offset : ℕ)
    (m : Outcome (Option (Note × ℕ)))
    → Advances offset m
    → ((note : Note) (next : ℕ)
        → offset + 12 ≤ next
        → parse_loop fuel bytes e next (notes ++ (note ∷ [])) ≢ stuck)
    → (m >>= after_note fuel bytes e notes) ≢ stuck
after_note-ne-stuck fuel bytes e notes offset (ok none) a h = λ p. cc
after_note-ne-stuck fuel bytes e notes offset (ok (some (note, next))) a h = h note next a
after_note-ne-stuck fuel bytes e notes offset (err x) a h = λ p. cc
after_note-ne-stuck fuel bytes e notes offset panic a h = λ p. cc
after_note-ne-stuck fuel bytes e notes offset stuck a h = absurd a

-- Fuel is left as long as there are bytes: a round needs twelve bytes and takes as many.
parse_loop-ne-stuck :
    (fuel : ℕ) (bytes : Bytes) (e : Endian) (offset : ℕ) (notes : List Note)
    → 1 ≤ fuel
    → length bytes + 1 ≤ fuel + offset
    → parse_loop fuel bytes e offset notes ≢ stuck
unfolding parse_loop sub_u64
parse_loop-ne-stuck zero bytes e offset notes h k = absurd (omega arith)
parse_loop-ne-stuck (suc fuel) bytes e offset notes h k = elim (le-cases offset (length bytes)) [
  | inr past ↦ rw (gt→leb _ _ past) (λ p. cc)
  | inl within ↦ elim (Bool-cases (ltb (length bytes - offset) 12)) [
    | inl short ↦ rw (le→leb _ _ within, short) (λ p. cc)
    | inr more ↦
        rw (le→leb _ _ within, more)
          (after_note-ne-stuck fuel bytes e notes offset (parse_note bytes e offset)
            (parse_note-Advances bytes e offset)
            (λ note next far.
              parse_loop-ne-stuck fuel bytes e next (notes ++ (note ∷ []))
                (omega (arith, ltb→ge _ _ more)) (omega arith)))
  ]
]

-- `parse_all` comes to an end on every input, well formed or not.
pub parse_all-ne-stuck : (bytes : Bytes) (e : Endian) → parse_all bytes e ≢ stuck
unfolding parse_all
parse_all-ne-stuck bytes e =
    parse_loop-ne-stuck (length bytes + 1) bytes e 0 [] (omega arith) (omega arith)
