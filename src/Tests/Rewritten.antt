-- ===== src/Tests/Rewritten.antt =====
-- Images that are written and parsed, and a file that is parsed, written and parsed again.
use elfex.Common.{◌≤◌, ◌≡◌, refl, arith, Bytes, IsByte, All}
use elfex.Common.Outcome.{ok}
use elfex.Common.Words.{to_le_bytes}
use elfex.Elf.{ElfImage}
use elfex.Elf.Build.{try_build, writable}
use elfex.Elf.Build.Enough.{total_cost, try_build-total}
use elfex.Elf.Build.DerivedTables.{IsHonest}
use elfex.Elf.Build.ParsedTables.{SameTables, tables-parse-try_build}
use elfex.Elf.Build.Output.{max_image}
use elfex.Elf.Parse.Whole.{IsWhole}
use elfex.Elf.Build.SameSections.{SameSections}
use elfex.Elf.Inspect.{image_base}
use elfex.Elf.Parse
use elfex.Elf.Parse.{file, read_image}
use elfex.Elf.Parse.Layouts.{segment_in}
use elfex.Elf.Parse.RegularImage.{read_image-IsRegularImage}
use elfex.Elf.Regular.{IsRegular, IsRegularImage}
use elfex.Header
use elfex.Header.Typed.{FitsClass}
use elfex.Header.RoundTrip as HeaderTrip
use elfex.Headers.Table.{write_table}
use elfex.Ident.{to_bytes}
use elfex.Header.ElfType
use elfex.Ident.ElfClass
use elfex.Ident.ElfClass.{elf64}
use elfex.Ident.Endian
use elfex.Program
use elfex.Program.RoundTrip as ProgramTrip
use elfex.Reader.{slice_reader}
use elfex.Reader.Typed.{slice_reader-Honest}
use elfex.Section
use elfex.StringTable.{is_utf8}
use elfex.Tests.Data.{file_header-IsTyped, text_header-IsTyped}
use elfex.Tests.Data as Data
use elfex.Tests.Parse.{object, object-parsed, image}
use elfex.Tests.Sections.{comment, with_section, written}

comment-IsRegular : IsRegular elf64 comment
unfolding is_utf8
comment-IsRegular = record {
  typed = omega arith;
  fits = tt;
  name = record {
    no_nul = (λ h. absurd (omega arith), (λ h. absurd (omega arith), tt));
    text = refl;
  };
}

object-IsByte : All IsByte object
unfolding write_table Header.write Header.fields Program.write Program.fields to_bytes
    Endian.word_bytes to_le_bytes ElfClass.to_byte Endian.to_byte ElfType.to_u16
object-IsByte = omega arith

abbrev read : ElfImage
read = record image { runtime_base = image_base image }

read_image-IsRegularImage_example : IsRegularImage read × FitsClass elf64 read.header
unfolding Parse.parse
read_image-IsRegularImage_example =
    read_image-IsRegularImage (slice_reader object) 0 file
      (slice_reader-Honest object object-IsByte) object-parsed

read-small : total_cost read ≤ max_image
unfolding Header.size Program.size Section.header_size writable segment_in write_table Header.write
    Header.fields Program.write Program.fields to_bytes Endian.word_bytes to_le_bytes
    ProgramTrip.narrow HeaderTrip.narrow
read-small = omega arith

read-class : Header.size read.header.ident.class ≡ Header.size read.ident.class
unfolding HeaderTrip.narrow
read-class = refl

abbrev rewritten : (bytes : Bytes) × (try_build read ≡ ok bytes)
rewritten = try_build-total read read-small (omega arith) (omega arith) read-class

comment-IsHonest : IsHonest comment
unfolding Section.is_nobits
comment-IsHonest = λ nobits. absurd (cc)

with_section-IsRegular : IsRegularImage with_section
with_section-IsRegular = record {
  ident = refl;
  header = file_header-IsTyped;
  segments = (text_header-IsTyped, tt);
  fits = (tt, tt);
  sections = (comment-IsRegular, tt);
}

text-IsWhole : IsWhole Data.text_segment
text-IsWhole = record { null = λ z. absurd (omega arith); full = λ z. refl }

tables-parse-try_build_example :
    (parsed : ElfImage) × (Parse.parse written.0 ≡ ok parsed) × SameTables with_section parsed
tables-parse-try_build_example =
    tables-parse-try_build with_section with_section-IsRegular (text-IsWhole, tt)
      (comment-IsHonest, tt) written.1
