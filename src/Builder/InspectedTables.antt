-- ===== src/Builder/InspectedTables.antt =====
-- The relocations that are found in the image that the builder makes.
use elfex.Builder.Inspected.{start, with_notes}
use elfex.Builder.{ElfBuilder, builder_parts, builder_image, builder_ident}
use elfex.Builder.Contents.{add_notes-sections, NoRelocs, relocations_of-skip}
use elfex.Builder.Pieces.{
  Parts, null_section, note_section, rela_section, add_rela, dynstr_section, dynamic_section,
  add_dynamic,
}
use elfex.Builder.Rela.{FitsRela, with_addend, parse-serialize_rela}
use elfex.Builder.Serialize.{NoteSpec, serialize_note}
use elfex.Common.{
  ◌≡◌, refl, sym, ap, ◌∙◌, Bytes, List, [], ◌∷◌, append-nil, true, All, All-append, map,
}
use elfex.Common.Outcome.{ok}
use elfex.Elf.{ElfImage}
use elfex.Elf.Inspect.{relocations, relocations_of}
use elfex.Ident.ElfClass.{ElfClass}
use elfex.Ident.Endian.{Endian}
use elfex.Reloc.{RelocationEntry, RelocationSection}

null-NoRelocs : NoRelocs null_section
unfolding null_section
null-NoRelocs = (refl, refl)

notes-NoRelocs :
    (specs : List NoteSpec) (e : Endian)
    → All (λ (s : NoteSpec). NoRelocs (note_section s.name (serialize_note s e))) specs
unfolding note_section
notes-NoRelocs [] e = tt
notes-NoRelocs (s ∷ specs) e = ((refl, refl), notes-NoRelocs specs e)

dynamic-NoRelocs :
    (names : List Bytes) (e : Endian) (class : ElfClass) (p : Parts)
    → All NoRelocs p.sections
    → All NoRelocs (add_dynamic names e class p).sections
unfolding add_dynamic dynstr_section dynamic_section
dynamic-NoRelocs [] e class p h = h
dynamic-NoRelocs (n ∷ names) e class p h =
    All-append NoRelocs p.sections _ h ((refl, refl), ((refl, refl), tt))

front-NoRelocs :
    (b : ElfBuilder)
    → All NoRelocs (add_dynamic b.needed b.encoding b.class (with_notes b)).sections
front-NoRelocs b = dynamic-NoRelocs b.needed b.encoding b.class (with_notes b) (
    add_notes-sections NoRelocs b.notes b.encoding (start b) (null-NoRelocs, tt)
      (notes-NoRelocs b.notes b.encoding))

-- The tables that are expected: one if there are entries, with an addend in each.
abbrev pub rela_tables : List RelocationEntry → List RelocationSection
rela_tables [] = []
rela_tables (r ∷ entries) = record { entries = map with_addend (r ∷ entries); is_rela = true } ∷ []

rela-relocations :
    (image : ElfImage) (entries : List RelocationEntry) (p : Parts)
    → All NoRelocs p.sections
    → All (FitsRela image.ident.class) entries
    → relocations_of image (add_rela entries image.ident.encoding image.ident.class p).sections
      ≡ ok (rela_tables entries)
unfolding add_rela relocations_of rela_section
rela-relocations image [] p h f =
    ap (relocations_of image) (sym (append-nil p.sections))
    ∙ relocations_of-skip image p.sections [] h
rela-relocations image (r ∷ entries) p h f =
    relocations_of-skip image p.sections _ h
    ∙ rw (parse-serialize_rela (r ∷ entries) image.ident.encoding image.ident.class f)

pub builder-relocations :
    (b : ElfBuilder)
    → All (FitsRela b.class) b.relocations
    → relocations (builder_image b) ≡ ok (rela_tables b.relocations)
unfolding relocations builder_image builder_ident builder_parts
builder-relocations b f =
    rela-relocations (builder_image b) b.relocations
      (add_dynamic b.needed b.encoding b.class (with_notes b)) (front-NoRelocs b) f
