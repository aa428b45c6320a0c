-- ===== src/Notes/RoundTrip.antt =====
-- Notes that the builder serialized are read back, one behind the other.
use elfex.Common.{
  ℕ, zero, suc, ◌+◌, ◌-◌, ◌<◌, ◌≤◌, ◌≡◌, refl, sym, ap, subst, ◌∙◌, arith, Bytes, List, [], ◌∷◌,
  ◌++◌, append-nil, append_assoc, some, ge→ltb, lt→ltb, length, All, map, length-append,
  length-replicate, length-drop, concat, concat_onto, concat-append,
}
use elfex.Common.Outcome.{ok, u64_mod, sub_u64-ok}
use elfex.Builder.Serialize.{NoteSpec, serialize_note}
use elfex.Ident.Endian.{Endian}
use elfex.Ident.Words.{length-word_bytes, word-word_bytes}
use elfex.Notes.{Note, padding4, parse_note, parse_loop, parse_all}
use elfex.Notes.Padding.{
  IsWritable, padded_name, name_pad, descriptor_pad, core_parts, strip_nul-append,
  serialize_note-parts, length-core_parts,
}
use elfex.ParseUtils.Fields.{array-At, slice-At, At-length}
use elfex.Reader.Fields.{At, At-behind, behind, behind_first}
use elfex.StringTable.{from_utf8-some}

abbrev pub to_note : NoteSpec → Note
to_note spec = record { name = spec.name; note_type = spec.note_type; descriptor = spec.descriptor }

-- One round of the loop on a serialized note takes the note, and goes on behind its padding,
-- which it does not look at.
pub parse_note-At :
    (bytes : Bytes) (off : ℕ) (e : Endian) (spec : NoteSpec) (rest : Bytes)
    → IsWritable spec
    → At bytes off (concat_onto (core_parts spec e) rest)
    → parse_note bytes e off
      ≡ ok (
          some (
            to_note spec,
            off + length (concat (core_parts spec e)) + padding4 (length spec.descriptor),
          ))
unfolding parse_note
parse_note-At bytes off e spec rest w a0 =
    let n4 = length-word_bytes e 4 (length spec.name + 1) in
    let d4 = length-word_bytes e 4 (length spec.descriptor) in
    let t4 = length-word_bytes e 4 spec.note_type in
    let a4 = behind_first bytes off e 4 (length spec.name + 1) _ a0 in
    let a8 = behind bytes off e 4 4 8 (length spec.descriptor) _ a4 refl in
    let a12 = behind bytes off e 4 8 12 spec.note_type _ a8 refl in
    let a_pad = At-behind bytes (off + 12) (padded_name spec) _ a12 in
    let a_desc = At-behind bytes _ (name_pad spec) _ a_pad in
    let named = length-append spec.name (0 ∷ []) in
    let pad_len = length-replicate {A = ℕ} (padding4 (length (padded_name spec))) 0 in
    let pad_eq = ap padding4 named in
    let name_len : ℕ = length spec.name + 1 in
    let name_end : ℕ = off + 12 + name_len in
    let desc_start : ℕ = name_end + padding4 name_len in
    let desc_end : ℕ = desc_start + length spec.descriptor in
    rw
      (
        array-At bytes off _ _ a0 4 n4,
        array-At bytes (off + 4) _ _ a4 4 d4,
        array-At bytes (off + 8) _ _ a8 4 t4,
        word-word_bytes e 4 name_len w.name_fits,
        word-word_bytes e 4 (length spec.descriptor) w.descriptor_fits,
        word-word_bytes e 4 spec.note_type w.type_lt,
        ge→ltb (length bytes) desc_end (omega (arith, At-length bytes _ spec.descriptor _ a_desc)),
        slice-At bytes (off + 12) (padded_name spec) _ a12 (name_end - name_len) name_end
            (omega arith) (omega arith),
        strip_nul-append spec.name,
        from_utf8-some spec.name w.name_utf8,
        slice-At bytes _ spec.descriptor rest a_desc desc_start desc_end (omega arith)
            (omega arith),
      )
      (ap (λ (o : ℕ). ok (some (to_note spec, o)))
        (omega (arith, length-core_parts spec e name_len (length spec.descriptor) refl refl)))

-- The serialized notes in front of more bytes.
abbrev pub notes_onto : List NoteSpec → Endian → Bytes → Bytes
notes_onto [] e rest = rest
notes_onto (s ∷ ss) e rest = concat_onto (core_parts s e) (descriptor_pad s ++ notes_onto ss e rest)

note_behind :
    (bytes : Bytes) (off : ℕ) (e : Endian) (s : NoteSpec) (rest : Bytes)
    → At bytes off (concat_onto (core_parts s e) (descriptor_pad s ++ rest))
    → At bytes (off + length (concat (core_parts s e)) + padding4 (length s.descriptor)) rest
note_behind bytes off e s rest a =
    let core = concat (core_parts s e) in
    subst (λ (k : ℕ). At bytes (off + length core + k) rest)
      (length-replicate (padding4 (length s.descriptor)) 0)
      (At-behind bytes (off + length core) (descriptor_pad s) rest (
        At-behind bytes off core (descriptor_pad s ++ rest)
          (rw (concat-append (core_parts s e) (descriptor_pad s ++ rest)) a)))

-- The first test of a round, by what is left.
module _ (bytes : Bytes) (off fuel : ℕ) (e : Endian) (acc : List Note) where
  pub loop_end :
      off ≤ length bytes → length bytes < off + 12 → parse_loop (suc fuel) bytes e off acc ≡ ok acc
  unfolding parse_loop
  loop_end h k = rw (sub_u64-ok (length bytes) off h, lt→ltb (length bytes - off) 12 (omega arith))

  pub loop_round :
      (note : Note) (next : ℕ)
      → off + 12 ≤ length bytes
      → parse_note bytes e off ≡ ok (some (note, next))
      → parse_loop (suc fuel) bytes e off acc ≡ parse_loop fuel bytes e next (acc ++ (note ∷ []))
  unfolding parse_loop
  loop_round note next h p =
      rw
        (
          sub_u64-ok (length bytes) off (omega arith),
          ge→ltb (length bytes - off) 12 (omega arith),
          p,
        )
        refl

core_long : (s : NoteSpec) (e : Endian) → 12 ≤ length (concat (core_parts s e))
core_long s e = omega (arith, length-core_parts s e _ _ refl refl)

parse_loop-At :
    (specs : List NoteSpec) (bytes : Bytes) (off fuel : ℕ) (e : Endian) (acc : List Note)
    → All IsWritable specs
    → At bytes off (notes_onto specs e [])
    → length specs < fuel
    → parse_loop fuel bytes e off acc ≡ ok (acc ++ map to_note specs)
parse_loop-At specs bytes off zero e acc w a h = absurd (omega arith)
parse_loop-At [] bytes off (suc fuel) e acc w a h =
    loop_end bytes off fuel e acc a.within (omega (arith, ap length a.from, length-drop off bytes))
    ∙ ap ok (sym (append-nil acc))
parse_loop-At (s ∷ ss) bytes off (suc fuel) e acc w a h =
    let core = concat (core_parts s e) in
    let whole =
      rw (← concat-append (core_parts s e) (descriptor_pad s ++ notes_onto ss e [])) at a in
    loop_round bytes off fuel e acc (to_note s) _
      (omega (arith, core_long s e, At-length bytes off core _ whole))
      (parse_note-At bytes off e s _ w.0 a)
    ∙ parse_loop-At ss bytes _ fuel e (acc ++ (to_note s ∷ [])) w.1
        (note_behind bytes off e s (notes_onto ss e []) a) (omega arith)
    ∙ ap ok (append_assoc acc (to_note s ∷ []) (map to_note ss))

-- The notes, each serialized, one behind the other.
unfoldable pub serialize_notes : List NoteSpec → Endian → Bytes
serialize_notes [] e = []
serialize_notes (s ∷ ss) e = serialize_note s e ++ serialize_notes ss e

serialize_notes-onto :
    (ss : List NoteSpec) (e : Endian)
    → All IsWritable ss
    → serialize_notes ss e ≡ notes_onto ss e []
unfolding serialize_notes
serialize_notes-onto [] e w = refl
serialize_notes-onto (s ∷ ss) e w =
    let core = concat (core_parts s e) in
    let pad = descriptor_pad s in
    rw (serialize_note-parts s e w.0, serialize_notes-onto ss e w.1)
      (simp (append_assoc, append-nil))

notes_long : (ss : List NoteSpec) (e : Endian) → length ss ≤ length (notes_onto ss e [])
notes_long [] e = omega arith
notes_long (s ∷ ss) e =
    rw (← concat-append (core_parts s e) (descriptor_pad s ++ notes_onto ss e [])) (
      omega (
        arith,
        core_long s e,
        notes_long ss e,
        length-append (concat (core_parts s e)) (descriptor_pad s ++ notes_onto ss e []),
        length-append (descriptor_pad s) (notes_onto ss e []),
      ))

-- The notes that the builder serialized, one behind the other, are read back in their order, if
-- their names are UTF-8, their sizes and types are below 2^32 and the whole is shorter than 2^64
-- bytes.
pub parse_all-serialize_notes :
    (specs : List NoteSpec) (e : Endian)
    → All IsWritable specs
    → length (serialize_notes specs e) < u64_mod
    → parse_all (serialize_notes specs e) e ≡ ok (map to_note specs)
unfolding parse_all
parse_all-serialize_notes specs e w fits =
    let q = serialize_notes-onto specs e w in
    let a : At (notes_onto specs e []) 0 (notes_onto specs e []) = record {
      from = refl;
      within = omega arith;
      fits = rw q at fits;
    } in
    rw q (
      parse_loop-At specs (notes_onto specs e []) 0 (length (notes_onto specs e []) + 1) e [] w a
        (omega (arith, notes_long specs e)))
