-- ===== src/Tests/Notes.antt =====
-- Note records: two of them written and read back, and one whose padding is missing.
use elfex.Builder.Serialize.{NoteSpec, u32_or_zero, pad_loop, serialize_note}
use elfex.Common.{◌<◌, ◌≡◌, ◌≢◌, refl, arith, [], ◌∷◌, map, length, concat_onto}
use elfex.Common.Outcome.{ok, panic, stuck, u64_mod}
use elfex.Common.Words.{to_le_bytes}
use elfex.Ident.Endian.{little, word_bytes}
use elfex.Notes.{parse_all, padding4}
use elfex.Notes.Padding.{IsWritable, core_parts}
use elfex.Notes.Parse.{parse_all-ne-stuck}
use elfex.Notes.RoundTrip.{to_note, serialize_notes, parse_all-serialize_notes}
use elfex.Notes.Unpadded.{parse_all-unpadded}
use elfex.StringTable.{is_utf8}

-- A build identifier of five bytes, and a property of four.
abbrev build_id : NoteSpec
build_id = record {
  name = b'G' ∷ b'N' ∷ b'U' ∷ [];
  note_type = 3;
  descriptor = 1 ∷ 2 ∷ 3 ∷ 4 ∷ 5 ∷ [];
}

abbrev owner : NoteSpec
owner = record { name = b'G' ∷ b'o' ∷ []; note_type = 4; descriptor = 9 ∷ 8 ∷ 7 ∷ 6 ∷ [] }

build_id-IsWritable : IsWritable build_id
unfolding is_utf8
build_id-IsWritable = record {
  name_utf8 = refl;
  name_fits = omega arith;
  descriptor_fits = omega arith;
  type_lt = omega arith;
}

owner-IsWritable : IsWritable owner
unfolding is_utf8
owner-IsWritable = record {
  name_utf8 = refl;
  name_fits = omega arith;
  descriptor_fits = omega arith;
  type_lt = omega arith;
}

notes-short : length (serialize_notes (build_id ∷ owner ∷ []) little) < u64_mod
unfolding serialize_notes serialize_note u32_or_zero pad_loop word_bytes to_le_bytes
notes-short = omega arith

parse_all-serialize_notes_example :
    parse_all (serialize_notes (build_id ∷ owner ∷ []) little) little
    ≡ ok (map to_note (build_id ∷ owner ∷ []))
parse_all-serialize_notes_example =
    parse_all-serialize_notes (build_id ∷ owner ∷ []) little
      (build_id-IsWritable, (owner-IsWritable, tt)) notes-short

parse_all-ne-stuck_example : parse_all (1 ∷ 2 ∷ 3 ∷ []) little ≢ stuck
parse_all-ne-stuck_example = parse_all-ne-stuck (1 ∷ 2 ∷ 3 ∷ []) little

unpadded-short : length (concat_onto (core_parts build_id little) []) < u64_mod
unfolding word_bytes to_le_bytes padding4
unpadded-short = omega arith

parse_all-unpadded_example : parse_all (concat_onto (core_parts build_id little) []) little ≡ panic
parse_all-unpadded_example =
    parse_all-unpadded build_id little build_id-IsWritable (omega arith) unpadded-short
