-- ===== src/Elf/Regular.antt =====
-- What the types of an image's fields, its class and its text say of it.
use elfex.Common.{◌≡◌, All}
use elfex.Elf.{ElfImage}
use elfex.Header.RoundTrip as HeaderTrip
use elfex.Ident.ElfClass.{ElfClass}
use elfex.Program.{Segment}
use elfex.Program.RoundTrip as ProgramTrip
use elfex.Section.{Section}
use elfex.Section.RoundTrip as SectionTrip
use elfex.StringTable.Names.{IsName}

-- What is asked of a section: fields in the range of their types, and of the class, and a name.
pub record IsRegular (class : ElfClass) (s : Section) : Type 0 where
  pub typed : SectionTrip.IsTyped s.header
  pub fits : SectionTrip.FitsClass class s.header
  pub name : IsName s.name

-- An image is regular: the two copies of its identification agree, the fields of its headers are
-- in the range of their types, those of segments and sections also in that of the class, and the
-- names of its sections are UTF-8 without a zero byte.
pub record IsRegularImage (image : ElfImage) : Type 0 where
  pub ident : image.header.ident ≡ image.ident
  pub header : HeaderTrip.IsTyped image.header
  pub segments : All (λ (s : Segment). ProgramTrip.IsTyped s.header) image.segments
  pub fits : All (λ (s : Segment). ProgramTrip.FitsClass image.ident.class s.header) image.segments
  pub sections : All (IsRegular image.ident.class) image.sections
