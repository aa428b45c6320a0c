-- ===== src/Elf/Edit/ReadBack.antt =====
-- What was written through an image-relative offset is read back there.
use elfex.Common.{
  ℕ, ◌+◌, ◌-◌, ◌≤◌, ◌≡◌, refl, sym, ap, ◌∙◌, arith, Bytes, List, ◌∷◌, ◌++◌, append-nil, some,
  Option-cases, subst, Bool, true, false, Bool-cases, inl, inr, ◌&&◌, length, take, drop, replicate,
  find, take-append, drop-append, length-append, length-take, length-drop,
}
use elfex.Common.Outcome.{checked_add}
use elfex.Common.Slices.{splice, get_from-some}
use elfex.Elf.{ElfImage, geometry}
use elfex.Elf.Edit.{is_target, write_segments, write_at_ioff}
use elfex.Elf.Edit.Written.{
  Patched, Written, here, there, write_segments-Written, Written-load_records,
}
use elfex.Elf.Inspect.{image_base, covering, zero_filled, read_segment, read_at_vaddr, read_ioff}
use mathlib.Core.Bool.{false≢true}
use elfex.Program
use elfex.Program.{Segment}

-- The patched range of a spliced buffer, in front of what was behind it.
pub drop-splice :
    (bytes : Bytes) (start : ℕ) (new : Bytes)
    → start ≤ length bytes
    → drop start (splice bytes start new) ≡ new ++ drop (start + length new) bytes
unfolding splice
drop-splice bytes start new h =
    drop-append start (take start bytes) _ (omega (arith, length-take start bytes))

pub length-splice :
    (bytes : Bytes) (start : ℕ) (new : Bytes)
    → start + length new ≤ length bytes
    → length (splice bytes start new) ≡ length bytes
unfolding splice
length-splice bytes start new h = omega (
  arith,
  length-append (take start bytes) (new ++ drop (start + length new) bytes),
  length-append new (drop (start + length new) bytes),
  length-take start bytes,
  length-drop (start + length new) bytes,
)

zero_filled-append : (new rest : Bytes) → zero_filled (new ++ rest) (length new) ≡ new
unfolding zero_filled
zero_filled-append new rest =
    ap (λ (k : ℕ). take k (new ++ rest) ++ replicate (length new - k) 0) {y = length new}
      (omega (arith, length-append new rest))
    ∙ ap (λ (k : ℕ). take (length new) (new ++ rest) ++ replicate k 0) {y = 0} (omega arith)
    ∙ append-nil (take (length new) (new ++ rest))
    ∙ take-append (length new) new rest refl

-- Reading a patched segment where it was patched.
read_segment-Patched :
    (vaddr : ℕ) (new : Bytes) (s s' : Segment)
    → Patched vaddr new s s'
    → read_segment s' vaddr (length new) ≡ new
unfolding read_segment
read_segment-Patched vaddr new s s' p =
    let start : ℕ = vaddr - s.header.vaddr in
    let bytes = splice s.bytes start new in
    rw
      (
        p.result,
        get_from-some bytes start (omega (arith, length-splice s.bytes start new p.room, p.room)),
        drop-splice s.bytes start new (omega (arith, p.room)),
        read_segment,
      )
      (zero_filled-append new _)

and-right : (a b : Bool) → (a && b) ≡ true → b ≡ true
and-right a b h = ground arith

-- A segment that takes the write holds the address, and still does when it is patched.
pub target-contains :
    (vaddr : ℕ) (s : Segment) → is_target vaddr s ≡ true → Program.contains_vaddr s vaddr ≡ true
unfolding is_target
target-contains vaddr s h = and-right _ (Program.contains_vaddr s vaddr) h

pub covering_here :
    (vaddr : ℕ) (s : Segment) (ss : List Segment)
    → Program.contains_vaddr s vaddr ≡ true
    → covering (s ∷ ss) vaddr ≡ some s
unfolding covering find
covering_here vaddr s ss h = rw (h, find) refl

pub covering_there :
    (vaddr : ℕ) (s : Segment) (ss : List Segment)
    → Program.contains_vaddr s vaddr ≡ false
    → covering (s ∷ ss) vaddr ≡ covering ss vaddr
unfolding covering find
covering_there vaddr s ss h = rw (h, find) refl

contains-Patched :
    (vaddr : ℕ) (new : Bytes) (s s' : Segment)
    → Patched vaddr new s s'
    → Program.contains_vaddr s' vaddr ≡ Program.contains_vaddr s vaddr
unfolding Program.contains_vaddr
contains-Patched vaddr new s s' p = rw p.result refl

-- If the first segment that holds the address takes the write, it is the one read afterwards.
Written-covering :
    {vaddr : ℕ} {new : Bytes} {ss ss' : List Segment} (first : Segment)
    → Written vaddr new ss ss'
    → covering ss vaddr ≡ some first
    → is_target vaddr first ≡ true
    → (s' : Segment) × (covering ss' vaddr ≡ some s') × Patched vaddr new first s'
Written-covering {vaddr} {new} first (here s s' ss hit p) c t =
    let holds = target-contains vaddr s hit in
    let same : s ≡ first = cc (covering_here vaddr s ss holds) in
    (
      s',
      covering_here vaddr s' ss (contains-Patched vaddr new s s' p ∙ holds),
      subst (λ f. Patched vaddr new f s') same p,
    )
Written-covering {vaddr} {new} first (there s ss ss' miss w) c t =
    elim (Bool-cases (Program.contains_vaddr s vaddr)) [
      | inl holds ↦
          let same : s ≡ first = cc (covering_here vaddr s ss holds) in
          absurd (false≢true (sym miss ∙ ap (is_target vaddr) same ∙ t))
      | inr outside ↦
          let (s', found, p) =
            Written-covering first w (sym (covering_there vaddr s ss outside) ∙ c) t in
          (s', covering_there vaddr s ss' outside ∙ found, p)
    ]

-- A successful write patches the first segment that takes it.
pub write_at_ioff-Written :
    (image image' : ElfImage) (ioff vaddr : ℕ) (new : Bytes)
    → write_at_ioff image ioff new ≡ some image'
    → checked_add (image_base image) ioff ≡ some vaddr
    → Written vaddr new image.segments image'.segments
unfolding write_at_ioff
write_at_ioff-Written image image' ioff vaddr new e at =
    elim (Option-cases (write_segments image.segments vaddr new)) [
      | inl refused ↦ cc
      | inr (ss, done) ↦
          let same : ss ≡ image'.segments = ground arith in
          subst (Written vaddr new image.segments) same
            (write_segments-Written image.segments ss vaddr new done)
    ]

-- The base is that of the headers, which a write leaves alone.
pub Written-image_base :
    {vaddr : ℕ} {new : Bytes} (image image' : ElfImage)
    → Written vaddr new image.segments image'.segments
    → image_base image' ≡ image_base image
unfolding image_base
Written-image_base image image' w = ap (λ ls. (geometry ls).base) (Written-load_records w)

-- When a write at an image-relative offset succeeds, its bytes are read back from that offset, if
-- the first segment of any type that holds the address is a loadable one.
pub read_ioff-write_at_ioff :
    (image image' : ElfImage) (ioff vaddr : ℕ) (new : Bytes) (first : Segment)
    → write_at_ioff image ioff new ≡ some image'
    → checked_add (image_base image) ioff ≡ some vaddr
    → covering image.segments vaddr ≡ some first
    → is_target vaddr first ≡ true
    → read_ioff image' ioff (length new) ≡ some new
unfolding read_ioff read_at_vaddr
read_ioff-write_at_ioff image image' ioff vaddr new first e at c t =
    let w = write_at_ioff-Written image image' ioff vaddr new e at in
    let (s', found, p) = Written-covering first w c t in
    rw (Written-image_base image image' w, at, found, read_ioff, read_at_vaddr)
      (ap some (read_segment-Patched vaddr new first s' p))
