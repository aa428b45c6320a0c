-- ===== src/Notes.antt =====
-- src/notes.rs: note records.
pub mod Padding
pub mod Parse
pub mod RoundTrip
pub mod Unpadded
use elfex.Common.{
  ℕ, zero, suc, ◌+◌, ◌-◌, ◌%◌, Bytes, List, [], ◌∷◌, ◌++◌, Option, none, some, Bool, ◌&&◌, ltb,
  ◌==◌, if◌then◌else◌, length,
}
use elfex.Common.Outcome.{Outcome, ok, stuck, ◌>>=◌, sub_u64, ok_or, invalid_utf8}
use elfex.Common.Slices.{slice, bytes_eq}
use elfex.Ident.Endian.{Endian, u32}
use elfex.ParseUtils.{array4}
use elfex.StringTable.{from_utf8}

pub record Note : Type 0 where
  pub name : Bytes
  pub note_type : ℕ
  pub descriptor : Bytes

abbrev pub name_gnu : Bytes
name_gnu = b'G' ∷ b'N' ∷ b'U' ∷ []

abbrev pub nt_gnu_build_id : ℕ
nt_gnu_build_id = 3

unfoldable pub is_gnu : Note → ℕ → Bool
is_gnu note note_type = bytes_eq note.name name_gnu && note.note_type == note_type

unfoldable pub padding4 : ℕ → ℕ
padding4 length' = (4 - length' % 4) % 4

-- A name without the zero byte at its end, if it has one.
unfoldable pub strip_nul : Bytes → Bytes
strip_nul [] = []
strip_nul (b ∷ []) = if b == 0 then [] else b ∷ []
strip_nul (b ∷ c ∷ bs) = b ∷ strip_nul (c ∷ bs)

-- The body of the loop of `parse_all`, at `offset`: `none` where it breaks, and otherwise the note
-- with the offset behind it. The sizes are below 2^32 and a slice is shorter than 2^63, so these
-- sums do not overflow.
unfoldable pub parse_note : Bytes → Endian → ℕ → Outcome (Option (Note × ℕ))
parse_note bytes endian offset = do
  namesz ← array4 bytes offset
  descsz ← array4 bytes (offset + 4)
  type ← array4 bytes (offset + 8)
  let name_len = u32 endian namesz
  let desc_len = u32 endian descsz
  let name_end = offset + 12 + name_len
  let desc_start = name_end + padding4 name_len
  let desc_end = desc_start + desc_len
  let record_of : Outcome (Option (Note × ℕ)) = (do
    padded_name ← slice bytes (name_end - name_len) name_end
    name ← ok_or (from_utf8 (strip_nul padded_name)) invalid_utf8
    descriptor ← slice bytes desc_start desc_end
    ok (
        some (
          record { name = name; note_type = u32 endian type; descriptor = descriptor },
          desc_end + padding4 desc_len,
        )))
  if ltb (length bytes) desc_end then ok none else record_of

-- `while data.len() - offset >= 12`, whose difference panics below zero; `notes` are those pushed
-- so far.
unfoldable pub parse_loop : ℕ → Bytes → Endian → ℕ → List Note → Outcome (List Note)
parse_loop zero bytes endian offset notes = stuck
parse_loop (suc fuel) bytes endian offset notes = do
  left ← sub_u64 (length bytes) offset
  let round : Outcome (List Note) = (do
    parsed ← parse_note bytes endian offset
    elim parsed [
      | none ↦ ok notes
      | some (note, next) ↦ parse_loop fuel bytes endian next (notes ++ (note ∷ []))
    ])
  if ltb left 12 then ok notes else round

-- Each round but the last takes twelve bytes at least (`Parse`).
unfoldable pub parse_all : Bytes → Endian → Outcome (List Note)
parse_all bytes endian = parse_loop (length bytes + 1) bytes endian 0 []
