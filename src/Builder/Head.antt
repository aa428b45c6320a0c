-- ===== src/Builder/Head.antt =====
-- src/builder.rs: the file header of the image that the builder builds.
use elfex.Builder.{ElfBuilder, builder_image, builder_header, builder_ident}
use elfex.Common.{ℕ, ◌≡◌, refl, subst, sym}
use elfex.Common.Words.{low32}
use elfex.Elf.Build.WithSections.{file_header}
use elfex.Elf.Build.{final_header}
use elfex.Header.{ElfHeader}
use elfex.Header.ElfType.{to_u16, to_u16-from_u16}
use elfex.Header.RoundTrip as HeaderTrip
use elfex.Ident.ElfClass.{ElfClass, elf32, elf64}

-- An address as a file of the class holds it.
abbrev pub held : ElfClass → ℕ → ℕ
held elf32 v = low32 v
held elf64 v = v

-- A file header has the numbers that were set on the builder.
pub record HasHead (b : ElfBuilder) (h : ElfHeader) : Type 0 where
  pub type : to_u16 h.type ≡ to_u16 b.elf_type
  pub machine : h.machine ≡ b.machine
  pub version : h.version ≡ 1
  pub entry : h.entry ≡ held b.class b.entry
  pub flags : h.flags ≡ b.flags

narrow-parts :
    (class : ElfClass) (h : ElfHeader)
    → (to_u16 (HeaderTrip.narrow class h).type ≡ to_u16 h.type)
      × ((HeaderTrip.narrow class h).machine ≡ h.machine)
      × ((HeaderTrip.narrow class h).version ≡ h.version)
      × ((HeaderTrip.narrow class h).entry ≡ held class h.entry)
      × ((HeaderTrip.narrow class h).flags ≡ h.flags)
unfolding HeaderTrip.narrow
narrow-parts elf32 h = (to_u16-from_u16 (to_u16 h.type), refl, refl, refl, refl)
narrow-parts elf64 h = (to_u16-from_u16 (to_u16 h.type), refl, refl, refl, refl)

-- The header that is read back of the one that the builder makes.
pub builder-HasHead :
    (b : ElfBuilder) (shoff : ℕ) {h : ElfHeader}
    → h ≡ HeaderTrip.narrow b.class (file_header (builder_image b) shoff)
    → HasHead b h
unfolding builder_image builder_header builder_ident final_header
builder-HasHead b shoff {h} e =
    let n = narrow-parts b.class (file_header (builder_image b) shoff) in
    subst (HasHead b) (sym e)
      (record { type = n.0; machine = n.1; version = n.2; entry = n.3; flags = n.4 })
