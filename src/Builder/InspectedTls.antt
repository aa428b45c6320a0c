-- ===== src/Builder/InspectedTls.antt =====
-- The thread-local template that is found in the image that the builder makes.
use elfex.Builder.InspectedNeeded.{is_type, loads-others}
use elfex.Builder.Inspected.{start, with_notes, rela-segments}
use elfex.Tls.{TlsInfo, from_header}
use elfex.Builder.{ElfBuilder, TlsSpec, load_segment, tls_segments, builder_parts, builder_image}
use elfex.Builder.Contents.{find-skip}
use elfex.Builder.Pieces.{Parts, note_segment, add_notes, dynamic_segment, add_dynamic}
use elfex.Builder.Serialize.{NoteSpec}
use elfex.Common.{
  ◌≡◌, refl, ap, ◌∙◌, Bytes, List, [], ◌∷◌, ◌++◌, Option, some, none, Bool, false, Bool-cases, inl,
  inr, All, find, map, length,
}
use elfex.Elf.{ElfImage}
use elfex.Elf.Inspect.{tls}
use elfex.Ident.ElfClass.{ElfClass}
use elfex.Ident.Endian.{Endian}
use elfex.Program.{Segment}
use elfex.Program.SegmentType

abbrev is_tls : Segment → Bool
is_tls = is_type SegmentType.tls

find-kept :
    (xs ys : List Segment)
    → All (λ s. is_tls s ≡ false) ys
    → find is_tls (xs ++ ys) ≡ find is_tls xs
unfolding find
find-kept [] [] h = refl
find-kept [] (y ∷ ys) h = rw (h.0, find) (find-kept [] ys h.1)
find-kept (x ∷ xs) ys h = elim (Bool-cases (is_tls x)) [
  | inl hit ↦ rw (hit, find) refl
  | inr missed ↦ rw (missed, find) (find-kept xs ys h)
]

add_notes-tls :
    (specs : List NoteSpec) (e : Endian) (p : Parts)
    → find is_tls (add_notes specs e p).segments ≡ find is_tls p.segments
unfolding add_notes note_segment
add_notes-tls [] e p = refl
add_notes-tls (s ∷ specs) e p = add_notes-tls specs e _ ∙ find-kept p.segments _ (refl, tt)

add_dynamic-tls :
    (names : List Bytes) (e : Endian) (class : ElfClass) (p : Parts)
    → find is_tls (add_dynamic names e class p).segments ≡ find is_tls p.segments
unfolding add_dynamic dynamic_segment
add_dynamic-tls [] e class p = refl
add_dynamic-tls (n ∷ names) e class p = find-kept p.segments _ (refl, tt)

-- The template that a specification asks for.
abbrev pub template : Option TlsSpec → Option TlsInfo
template none = none
template (some t) = some (record {
  template_vaddr = t.vaddr;
  file_size = length t.bytes;
  mem_size = t.memsz;
  align = t.align;
})

start-tls :
    (image : ElfImage) (t : Option TlsSpec)
    → find is_tls image.segments ≡ find is_tls (tls_segments t)
    → tls image ≡ template t
unfolding tls tls_segments find from_header
start-tls image none h = rw (h, tls) refl
start-tls image (some t) h = rw (h, tls) refl

pub builder-tls : (b : ElfBuilder) → tls (builder_image b) ≡ template b.tls
unfolding builder_image builder_parts
builder-tls b = start-tls (builder_image b) b.tls (
    ap (find is_tls) (
      rela-segments b.relocations b.encoding b.class
        (add_dynamic b.needed b.encoding b.class (with_notes b)))
    ∙ add_dynamic-tls b.needed b.encoding b.class (with_notes b)
    ∙ add_notes-tls b.notes b.encoding (start b)
    ∙ find-skip is_tls (map load_segment b.loads) (tls_segments b.tls)
        (loads-others SegmentType.tls b.loads refl))
