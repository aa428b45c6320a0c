-- ===== src/Tests/Tables.antt =====
-- The headers of a small object, written and read back.
use elfex.Common.{◌<◌, ◌≡◌, refl, arith, Bytes, List, [], ◌∷◌, ◌++◌, map, concat, length}
use elfex.Common.Outcome.{ok, u64_mod}
use elfex.Common.Words.{to_le_bytes, to_be_bytes}
use elfex.Header
use elfex.Header.RoundTrip as HeaderTrip
use elfex.Headers.{from_slice}
use elfex.Headers.RoundTrip.{from_slice-write_table}
use elfex.Headers.Table.{write_table}
use elfex.Ident.{to_bytes}
use elfex.Ident.ElfClass.{elf32, elf64}
use elfex.Ident.Endian
use elfex.Ident.Endian.{little, big}
use elfex.Program
use elfex.Program.{ProgramHeader}
use elfex.Program.RoundTrip as ProgramTrip
use elfex.Reader.{slice_reader}
use elfex.Section
use elfex.Section.RoundTrip as SectionTrip
use elfex.Tests.Data.{
  file_header, text_header, interp_header, strings_header, file_header-IsTyped, text_header-IsTyped,
  interp_header-IsTyped, strings_header-IsTyped,
}

abbrev table : List ProgramHeader
table = interp_header ∷ text_header ∷ []

abbrev object : Bytes
object = write_table table (Header.write file_header []) little elf64 ++ (0x90 ∷ 0xc3 ∷ [])

object-short : length object < u64_mod
unfolding write_table Header.write Header.fields Program.write Program.fields to_bytes
    Endian.word_bytes to_le_bytes
object-short = omega arith

from_slice-write_table_example :
    from_slice object
    ≡ ok (record {
      ident = file_header.ident;
      header = HeaderTrip.narrow elf64 file_header;
      program_headers = map (ProgramTrip.narrow elf64) table;
    })
unfolding Header.size
from_slice-write_table_example =
    from_slice-write_table file_header table (0x90 ∷ 0xc3 ∷ []) file_header-IsTyped
      (interp_header-IsTyped, (text_header-IsTyped, tt)) refl refl object-short

program_bytes-short :
    length ((1 ∷ 2 ∷ []) ++ (concat (Program.fields text_header big elf32) ++ (7 ∷ []))) < u64_mod
unfolding Program.fields Endian.word_bytes to_be_bytes to_le_bytes
program_bytes-short = omega arith

parse-write_program_example :
    Program.parse
      (slice_reader (Program.write text_header (1 ∷ 2 ∷ []) big elf32 ++ (7 ∷ [])))
      2
      big
      elf32
    ≡ ok (ProgramTrip.narrow elf32 text_header)
parse-write_program_example =
    ProgramTrip.parse-write_program text_header (1 ∷ 2 ∷ []) (7 ∷ []) big elf32 text_header-IsTyped
      program_bytes-short

section_bytes-short :
    length ((1 ∷ []) ++ (concat (Section.fields strings_header little elf32) ++ (7 ∷ []))) < u64_mod
unfolding Section.fields Endian.word_bytes to_le_bytes
section_bytes-short = omega arith

parse-write_section_example :
    Section.parse
      (slice_reader (Section.write strings_header (1 ∷ []) little elf32 ++ (7 ∷ [])))
      1
      little
      elf32
    ≡ ok (SectionTrip.narrow elf32 strings_header)
parse-write_section_example =
    SectionTrip.parse-write_section strings_header (1 ∷ []) (7 ∷ []) little elf32
      strings_header-IsTyped section_bytes-short
