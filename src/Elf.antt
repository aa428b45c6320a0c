-- ===== src/Elf.antt =====
-- src/elf.rs: the image container and its address geometry.
pub mod Align
pub mod Geometry
pub mod Inspect
pub mod Edit
pub mod Parse
pub mod Build
pub mod Validate
pub mod Regular
use elfex.Common.{
  ℕ, zero, suc, ◌+◌, ◌-◌, ◌%◌, List, [], ◌∷◌, Option, none, some, Bool, leb, ltb, ◌==◌,
  if◌then◌else◌, min, max,
}
use elfex.Common.Outcome.{saturating_add}
use elfex.Header.{ElfHeader}
use elfex.Ident.{ElfIdent}
use elfex.Program.{Segment}
use elfex.Section.{Section}

pub record ElfImage : Type 0 where
  pub ident : ElfIdent
  pub header : ElfHeader
  pub segments : List Segment
  pub sections : List Section
  pub runtime_base : ℕ

pub record ImageGeometry : Type 0 where
  pub base : ℕ
  pub page : ℕ
  pub span : ℕ

-- `(vaddr, memsz, align)` of a loadable segment
pub record Load : Type 0 where
  pub vaddr : ℕ
  pub memsz : ℕ
  pub align : ℕ

unfoldable pub align_up : ℕ → ℕ → ℕ
align_up value alignment =
    if leb alignment 1
    then value
    else if value % alignment == 0
    then value
    else saturating_add value (alignment - value % alignment)

-- The variables of the loop of `geometry`.
pub record Extent : Type 0 where
  pub page : ℕ
  pub min_vaddr : Option ℕ
  pub max_end : ℕ

unfoldable pub lower : Option ℕ → ℕ → ℕ
lower none vaddr = vaddr
lower (some current) vaddr = min current vaddr

unfoldable pub extend : Extent → Load → Extent
extend x load = if load.memsz == 0 then x else record {
  page = if ltb 1 load.align then max x.page load.align else x.page;
  min_vaddr = some (lower x.min_vaddr load.vaddr);
  max_end = max x.max_end (saturating_add load.vaddr load.memsz);
}

unfoldable pub extent : Extent → List Load → Extent
extent x [] = x
extent x (load ∷ loads) = extent (extend x load) loads

-- The last `saturating_sub` is the subtraction of ℕ.
unfoldable pub geometry_of : Extent → ImageGeometry
geometry_of x = elim x.min_vaddr [
  | none ↦ record { base = 0; page = x.page; span = 0 }
  | some vaddr ↦
      let base = vaddr - vaddr % x.page in
      record { base = base; page = x.page; span = align_up x.max_end x.page - base }
]

unfoldable pub geometry : List Load → ImageGeometry
geometry loads =
    geometry_of (extent (record { page = 0x1000; min_vaddr = none; max_end = 0 }) loads)
