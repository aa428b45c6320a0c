-- ===== src/Notes/Unpadded.antt =====
-- The last note of a sequence without the padding of its descriptor.
use elfex.Common.{
  ℕ, suc, ◌-◌, ◌%◌, ◌<◌, ◌≡◌, ◌≢◌, refl, ap, ◌∙◌, arith, Bytes, List, [], ◌∷◌, length, concat,
  concat_onto, gt→leb,
}
use elfex.Common.Outcome.{panic, u64_mod, sub_u64}
use elfex.Builder.Serialize.{NoteSpec}
use elfex.Ident.Endian.{Endian}
use elfex.Notes.{Note, padding4, parse_loop, parse_all}
use elfex.Notes.Padding.{IsWritable, core_parts, length-core_parts}
use elfex.Notes.RoundTrip.{to_note, parse_note-At, loop_round}
use elfex.Reader.Fields.{At}

padding4-pos : (n : ℕ) → n % 4 ≢ 0 → 0 < padding4 n
unfolding padding4
padding4-pos n h = omega arith

loop_past :
    (bytes : Bytes) (off fuel : ℕ) (e : Endian) (notes : List Note)
    → length bytes < off
    → parse_loop (suc fuel) bytes e off notes ≡ panic
unfolding parse_loop sub_u64
loop_past bytes off fuel e notes h = rw (gt→leb off (length bytes) h)

-- A note whose descriptor is no multiple of four bytes long, and that ends the input with the
-- descriptor, makes `parse_all` panic: the next offset lies behind the end, and the difference
-- that the loop tests falls below zero. The note's fields fit, and the input is shorter than 2^64
-- bytes.
pub parse_all-unpadded :
    (spec : NoteSpec) (e : Endian)
    → IsWritable spec
    → length spec.descriptor % 4 ≢ 0
    → length (concat_onto (core_parts spec e) []) < u64_mod
    → parse_all (concat_onto (core_parts spec e) []) e ≡ panic
unfolding parse_all
parse_all-unpadded spec e w odd fits =
    let bytes = concat (core_parts spec e) in
    let core : ℕ = length bytes in
    let a : At bytes 0 bytes = record { from = refl; within = omega arith; fits = fits } in
    let long = length-core_parts spec e _ _ refl refl in
    ap (λ (f : ℕ). parse_loop f bytes e 0 []) {y = suc (suc (core - 1))} (omega arith)
    ∙ loop_round bytes 0 (suc (core - 1)) e [] (to_note spec) _ (omega arith)
        (parse_note-At bytes 0 e spec [] w a)
    ∙ loop_past bytes _ (core - 1) e (to_note spec ∷ [])
        (omega (arith, padding4-pos (length spec.descriptor) odd))
