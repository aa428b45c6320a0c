-- ===== src/Builder/Built.antt =====
-- The image that the builder builds: written, and parsed from its bytes.
use elfex.Builder.{
  ElfBuilder, LoadSpec, load_segment, tls_segments, builder_parts, builder_image, builder_ident,
  builder_header, try_build,
}
use elfex.Builder.Head.{HasHead, builder-HasHead}
use elfex.Builder.Inspected.{start, with_notes, rela-segments, builder-notes}
use elfex.Builder.InspectedNeeded.{builder-needed}
use elfex.Builder.InspectedTables.{rela_tables, builder-relocations}
use elfex.Builder.InspectedTls.{template, builder-tls}
use elfex.Builder.Pieces.{Parts, add_notes, add_dynamic, note_segment}
use elfex.Builder.DynamicRows.{word_limit}
use elfex.Builder.Serialize.{NoteSpec, serialize_note}
use elfex.Builder.Sound.{builder-IsRegularImage, builder-IsWhole, builder-IsHonest}
use elfex.Builder.Suited.{Suits, FitsNote}
use elfex.Common.{
  ℕ, ◌≤◌, ◌<◌, ◌≡◌, refl, sym, ap, ◌∙◌, subst, arith, Bytes, List, [], ◌∷◌, ◌++◌, append_assoc, All,
  map, length, take,
}
use elfex.Common.Outcome.{ok, bind-ok-parts, ok-injective}
use elfex.Common.Pairwise.{All-map}
use elfex.Elf.{ElfImage}
use elfex.Elf.Build
use elfex.Elf.Build.Enough.{total_cost, try_build-total}
use elfex.Elf.Build.Output.{max_image}
use elfex.Elf.Build.Stored.{named}
use elfex.Elf.Build.DerivedTables.{whole-kept}
use elfex.Elf.Build.ParsedTables.{tables-Same, listed-IsHonest, tables-parse-try_build}
use elfex.Elf.Build.Reparsed.{SameSegments}
use elfex.Elf.Build.WithSections.{parse-try_build_image}
use elfex.Elf.Inspect as Inspect
use elfex.Elf.Parse.Whole.{IsWhole}
use elfex.Ident.ElfClass.{ElfClass, elf32, elf64}
use elfex.Ident.Endian.{Endian}
use elfex.Notes.Padding.{IsWritable}
use elfex.Notes.RoundTrip.{to_note}
use elfex.Program.{Segment}

-- A segment is that of a load, at some offset.
pub record Loads (l : LoadSpec) (t : Segment) : Type 0 where
  pub header : t.header ≡ record (load_segment l).header { offset = t.header.offset }
  pub bytes : t.bytes ≡ l.bytes

abbrev pub AllLoads : List LoadSpec → List Segment → Type 0
AllLoads [] [] = Unit {0}
AllLoads [] (t ∷ ts) = ⊥
AllLoads (l ∷ ls) [] = ⊥
AllLoads (l ∷ ls) (t ∷ ts) = Loads l t × AllLoads ls ts

loads-kept :
    (loads : List LoadSpec) (more ts : List Segment)
    → All IsWhole (map load_segment loads ++ more)
    → SameSegments (map load_segment loads ++ more) ts
    → AllLoads loads (take (length loads) ts)
unfolding load_segment
loads-kept [] more ts w h = tt
loads-kept (l ∷ loads) more [] w h = absurd h
loads-kept (l ∷ loads) more (t ∷ ts) w h =
    let kept = whole-kept (load_segment l) t w.0 h.0 (λ z. absurd (omega arith)) in
    (record { header = kept.1; bytes = kept.0 }, loads-kept loads more ts w.1 h.1)

-- The segments begin with those there were.
abbrev Begins : List Segment → List Segment → Type 0
Begins xs ys = (more : List Segment) × (ys ≡ xs ++ more)

Begins-append : (xs ys zs : List Segment) → Begins xs ys → Begins xs (ys ++ zs)
Begins-append xs ys zs (more, e) =
    (more ++ zs, ap (λ (r : List Segment). r ++ zs) e ∙ append_assoc xs more zs)

add_notes-Begins :
    (xs : List Segment) (specs : List NoteSpec) (e : Endian) (p : Parts)
    → Begins xs p.segments
    → Begins xs (add_notes specs e p).segments
unfolding add_notes
add_notes-Begins xs [] e p h = h
add_notes-Begins xs (s ∷ specs) e p h =
    add_notes-Begins xs specs e _
      (Begins-append xs p.segments (note_segment (serialize_note s e) ∷ []) h)

add_dynamic-Begins :
    (xs : List Segment) (names : List Bytes) (e : Endian) (class : ElfClass) (p : Parts)
    → Begins xs p.segments
    → Begins xs (add_dynamic names e class p).segments
unfolding add_dynamic
add_dynamic-Begins xs [] e class p h = h
add_dynamic-Begins xs (n ∷ names) e class p h = Begins-append xs p.segments _ h

builder-Begins : (b : ElfBuilder) → Begins (map load_segment b.loads) (builder_image b).segments
unfolding builder_image builder_parts
builder-Begins b =
    let p = add_dynamic b.needed b.encoding b.class (with_notes b) in
    let begin =
      add_dynamic-Begins (map load_segment b.loads) b.needed b.encoding b.class (with_notes b) (
        add_notes-Begins (map load_segment b.loads) b.notes b.encoding (start b)
          (tls_segments b.tls, refl)) in
    subst (Begins (map load_segment b.loads))
      (sym (rela-segments b.relocations b.encoding b.class p)) begin

word_limit-ge : (class : ElfClass) (n : ℕ) → n < 0x100000000 → n < word_limit class
word_limit-ge elf32 n h = h
word_limit-ge elf64 n h = omega arith

-- The image has what was put into the builder: the identification and the numbers of the file
-- header, the loads, and what its inspection finds.
pub record Built (b : ElfBuilder) (image : ElfImage) : Type 0 where
  pub ident : image.ident ≡ builder_ident b
  pub header : HasHead b image.header
  pub loads : AllLoads b.loads (take (length b.loads) image.segments)
  pub notes : Inspect.notes image ≡ ok (map to_note b.notes)
  pub relocations : Inspect.relocations image ≡ ok (rela_tables b.relocations)
  pub needed : Inspect.needed_libraries image ≡ ok b.needed
  pub tls : Inspect.tls image ≡ template b.tls

pub try_build-Built :
    (b : ElfBuilder) {image : ElfImage} → Suits b → try_build b ≡ ok image → Built b image
unfolding try_build builder_image builder_ident
try_build-Built b {image} s h =
    let (bytes, read, built) = bind-ok-parts (Build.try_build (builder_image b)) _ h in
    let r = builder-IsRegularImage b s in
    let whole = builder-IsWhole b s in
    let (parsed, again, ident, header, segments, sections) =
      parse-try_build_image (builder_image b) r.ident r.header r.segments r.fits r.sections built in
    let tables =
      tables-Same (builder_image b) parsed ident segments sections whole
        (listed-IsHonest (builder_image b).sections (builder-IsHonest b s)) in
    let (more, e) = builder-Begins b in
    let writable =
      All-map {P = FitsNote b.encoding} {Q = IsWritable} (λ n f. f.writable) b.notes s.notes in
    let small =
      All-map {P = FitsNote b.encoding}
        {Q = λ n. length (serialize_note n b.encoding) < 0x10000000000000000}
        (λ n f. omega (arith, f.size_lt)) b.notes s.notes in
    subst (Built b) (ok-injective (sym again ∙ read)) (record {
      ident = ident;
      header = builder-HasHead b header.0 header.1;
      loads =
          loads-kept b.loads more parsed.segments (subst (All IsWhole) e whole)
            (subst (λ (ss : List Segment). SameSegments ss parsed.segments) e segments);
      notes = tables.notes ∙ builder-notes b writable small;
      relocations = tables.relocations ∙ builder-relocations b s.relocations;
      needed = tables.needed ∙ builder-needed b s.needed (word_limit-ge b.class _ s.strings_lt);
      tls = tables.tls ∙ builder-tls b;
    })

pub try_build-builds :
    (b : ElfBuilder)
    → Suits b
    → total_cost (builder_image b) ≤ max_image
    → length (builder_image b).segments < 0x10000
    → length (named (builder_image b).sections) < 0x10000
    → (image : ElfImage) × (try_build b ≡ ok image) × Built b image
unfolding try_build builder_image builder_ident builder_header
try_build-builds b s cost few few' =
    let (bytes, written) = try_build-total (builder_image b) cost few few' refl in
    let r = builder-IsRegularImage b s in
    let (parsed, read, kept) =
      tables-parse-try_build (builder_image b) r (builder-IsWhole b s) (builder-IsHonest b s)
        written in
    let both : try_build b ≡ ok parsed = rw written read in (parsed, both, try_build-Built b s both)
