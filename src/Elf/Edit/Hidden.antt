-- ===== src/Elf/Edit/Hidden.antt =====
-- A segment that is not loadable and stands in front of the loadable one at an address.
use elfex.Common.{ℕ, ◌≡◌, refl, sym, ap, ◌∙◌, Bytes, List, some, false, Bool-cases, inl, inr}
use elfex.Common.Outcome.{checked_add}
use elfex.Elf.{ElfImage}
use elfex.Elf.Edit.{is_target, write_at_ioff}
use elfex.Elf.Edit.ReadBack.{
  target-contains, covering_here, covering_there, write_at_ioff-Written, Written-image_base,
}
use elfex.Elf.Edit.Written.{Written, here, there}
use elfex.Elf.Inspect.{image_base, covering, read_at_vaddr, read_ioff}
use mathlib.Core.Bool.{false≢true}
use elfex.Program
use elfex.Program.{Segment}

-- The write passes such a segment over, and it stays the first one that holds the address.
Written-hidden :
    {vaddr : ℕ} {new : Bytes} {ss ss' : List Segment} (first : Segment)
    → Written vaddr new ss ss'
    → covering ss vaddr ≡ some first
    → is_target vaddr first ≡ false
    → covering ss' vaddr ≡ some first
Written-hidden {vaddr} {new} first (here s s' ss hit p) c t =
    let holds = target-contains vaddr s hit in
    let same : s ≡ first = cc (covering_here vaddr s ss holds) in
    absurd (false≢true (sym t ∙ ap (is_target vaddr) (sym same) ∙ hit))
Written-hidden {vaddr} {new} first (there s ss ss' miss w) c t =
    elim (Bool-cases (Program.contains_vaddr s vaddr)) [
      | inl holds ↦ covering_here vaddr s ss' holds ∙ sym (covering_here vaddr s ss holds) ∙ c
      | inr outside ↦
          covering_there vaddr s ss' outside
          ∙ Written-hidden first w (sym (covering_there vaddr s ss outside) ∙ c) t
    ]

-- When a write at an image-relative offset succeeds and the first segment of any type that holds
-- the address is not loadable, a read at the offset returns what it did before the write.
pub read_ioff-write_at_ioff_hidden :
    (image image' : ElfImage) (ioff vaddr : ℕ) (new : Bytes) (first : Segment) (len : ℕ)
    → write_at_ioff image ioff new ≡ some image'
    → checked_add (image_base image) ioff ≡ some vaddr
    → covering image.segments vaddr ≡ some first
    → is_target vaddr first ≡ false
    → read_ioff image' ioff len ≡ read_ioff image ioff len
unfolding read_ioff read_at_vaddr
read_ioff-write_at_ioff_hidden image image' ioff vaddr new first len e at c t =
    let w = write_at_ioff-Written image image' ioff vaddr new e at in
    rw
      (
        Written-image_base image image' w,
        at,
        Written-hidden first w c t,
        c,
        read_ioff,
        read_at_vaddr,
      )
      refl
