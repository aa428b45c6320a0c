-- ===== src/Tests/Reader.antt =====
-- Exact reads of a slice and of a source that gives little at a time, and the identification.
use elfex.Common.{
  ℕ, ◌-◌, ◌≡◌, refl, arith, Bytes, [], ◌∷◌, ◌++◌, none, length, take, drop, replicate,
  length-append, length-take, length-drop,
}
use elfex.Common.Slices.{get_from}
use elfex.Common.Outcome.{Outcome, ok, fail, buffer_too_small, checked_add, reject_if}
use elfex.Ident.{parse, to_bytes}
use elfex.Ident.Endian.{big}
use elfex.Ident.ElfClass.{elf32}
use elfex.Ident.RoundTrip.{parse-to_bytes}
use elfex.Reader.{ReadAt, read_exact_at, read_exact_loop, slice_read_at, slice_reader}
use elfex.Reader.Slice.{read_exact_at-slice, read_exact_at-slice_short}
use elfex.Reader.Total.{Answers, Fills, slice_reader-Answers, read_exact_at-Fills}
use elfex.Tests.Data.{identity}

abbrev bytes : Bytes
bytes = 1 ∷ 2 ∷ 3 ∷ 4 ∷ 5 ∷ []

read_exact_at-slice_example :
    read_exact_at (slice_reader bytes) 1 (replicate 3 0) ≡ ok (take 3 (drop 1 bytes))
read_exact_at-slice_example = read_exact_at-slice bytes 1 3 (omega arith) (omega arith)

read_exact_at-slice_short_example :
    read_exact_at (slice_reader bytes) 3 (replicate 4 0)
    ≡ fail (buffer_too_small 4 (length bytes - 3))
read_exact_at-slice_short_example =
    read_exact_at-slice_short bytes 3 4 (omega arith) (omega arith) (omega arith) (omega arith)

-- A source that gives a byte at a time.
abbrev trickle_read : ℕ → Bytes → Bytes × Outcome ℕ
trickle_read offset buf =
    let (filled, answer) = slice_read_at bytes offset (take 1 buf) in (filled ++ drop 1 buf, answer)

abbrev trickle : ReadAt
trickle = record { read_at = trickle_read; size = none }

trickle-Answers : Answers trickle
trickle-Answers =
    let slice = slice_reader-Answers bytes in
    record {
      returns = λ offset buf. slice.returns offset (take 1 buf);
      keeps = λ offset buf. omega (
        arith,
        length-append (slice_read_at bytes offset (take 1 buf)).0 (drop 1 buf),
        slice.keeps offset (take 1 buf),
        length-take 1 buf,
        length-drop 1 buf,
      );
    }

trickled : read_exact_at trickle 2 (0 ∷ 0 ∷ []) ≡ ok (3 ∷ 4 ∷ [])
unfolding read_exact_at read_exact_loop slice_read_at get_from checked_add reject_if
trickled = refl

read_exact_at-Fills_example : Fills trickle 2 2 [] (read_exact_at trickle 2 (0 ∷ 0 ∷ []))
read_exact_at-Fills_example = read_exact_at-Fills trickle 2 (0 ∷ 0 ∷ []) trickle-Answers

parse-to_bytes_example : parse (to_bytes (identity elf32 big)) ≡ ok (identity elf32 big)
parse-to_bytes_example = parse-to_bytes (identity elf32 big)
