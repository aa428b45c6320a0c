-- ===== src/Lib.antt =====
-- A model of elfex, a library that parses, inspects, edits and builds ELF images (src/lib.rs), and
-- the theorems about it.
--
-- How the program's parts stand together: every reader takes its bytes from a positioned source
-- (`ReadAt`). `ElfHeaders` reads the identification, the file header and the program headers, and
-- an `ElfImage` keeps the headers with the bytes of the segments and sections. The derived tables
-- (symbols, relocations, dynamic entries, notes) are parsed from those bytes, and image-relative
-- offsets, counted from the base of the loadable segments, name the bytes to read and edit.
--
-- Which file is about which part:
--   Common              bytes, slices, words, signed numbers, outcomes; src/error.rs
--   Ident               src/ident.rs: `ElfIdent`, `ElfClass`, `Endian`
--   ParseUtils          src/parse_utils.rs: `array2`, `array4`, `array8`
--   Reader              src/reader.rs: `ReadAt`, `SliceReader`
--   StringTable         src/strtab.rs: `StringTable::get`
--   Program, Section    src/program.rs, src/section.rs: headers, segments, sections
--   Header, Headers     src/header.rs: `ElfHeader` and `ElfHeaders`
--   Notes               src/notes.rs: `Note::parse_all`
--   Symbol, Reloc       src/symbol.rs, src/reloc.rs
--   Dynamic, Tls        src/dynamic.rs, src/tls.rs
--   Elf                 src/elf.rs: `ElfImage`, `geometry`, `align_up`
--   Elf/Inspect         src/elf/inspect.rs: addresses, reads, derived tables
--   Elf/Edit            src/elf/edit.rs: `write_at_ioff`
--   Elf/Parse           src/elf/parse.rs: file layout (parent), mapped layout, sections, sources
--   ElfFile             src/elf_file.rs: `last_structure_end` and the trailing bytes
--   Elf/Build           src/elf/build.rs: `try_build` (parent), the output buffer, the section names,
--                       and `to_mapped_image_at` in Elf/Build/Mapped
--   Validation          src/validation.rs: issues and their severities
--   Elf/Validate        src/elf/validate.rs: the checks, in their order
--   Builder             src/builder.rs: `ElfBuilder` (parent), its segments and sections (Pieces),
--                       and the byte forms of notes and relocations (Serialize)
--   Tests               the theorems at concrete inputs
--
-- How code is written here: an integer is a natural number, and a type's range is a hypothesis
-- where it matters (`IsTyped`). `usize` is that of a 64-bit target. Where a sum or a difference may
-- leave its type the model has `panic`, as in a build with overflow checks; `checked_add` and
-- `saturating_add` are written out. A result is an `Outcome`: a value, an error of src/error.rs, a
-- panic, or `stuck`, which stands for a loop that ran out of fuel. A byte string is a list of
-- numbers, and a string the list of its UTF-8 bytes. A buffer that a function fills is passed in
-- and out. The allocator is taken to succeed below `isize::MAX` bytes.
--
-- Fuel: `read_exact_loop` and `lenient_loop` have as much as the buffer has bytes, since each round
-- fills one or ends; `parse_loop` of the notes has one round more than there are bytes, since each
-- record takes twelve; `pad_loop` has three rounds. The chunks of a table take one of fuel to a
-- byte.
--
-- The writers: `try_build` keeps an output buffer and a cursor, and grows the buffer by each write
-- up to the 256 MiB of `MAX_IMAGE`. It is modelled as the loops over segments and sections, which
-- pass both on, and the writes of the tables and the file header behind them.
--
-- Not modelled: `FileReader`, `from_file` and the I/O errors, which are file access; the texts that
-- issues print; and the `build` functions that unwrap the result of `try_build`.
pub mod Common
pub mod Ident
pub mod ParseUtils
pub mod Reader
pub mod StringTable
pub mod Program
pub mod Section
pub mod Header
pub mod Headers
pub mod Notes
pub mod Builder
pub mod Symbol
pub mod Reloc
pub mod Dynamic
pub mod Tls
pub mod Validation
pub mod Elf
pub mod ElfFile
pub mod Tests
