-- ===== src/Elf/Build/Buffer.antt =====
-- The output buffer: what a write changes, and what it leaves alone.
use elfex.Common.{
  ℕ, ◌+◌, ◌-◌, ◌≤◌, ◌<◌, ◌≡◌, refl, sym, ap, ◌∙◌, arith, Bytes, ◌++◌, ltb, ltb→lt, ltb→ge, lt→ltb,
  ge→ltb, Bool-cases, le-cases, subst, inl, inr, ◌⊎◌, length, take, drop, replicate, get_elem?,
  length-append, length-take, length-replicate, max,
}
use elfex.Common.Elements.{
  get_elem?-append_left, get_elem?-append_right, get_elem?-take, get_elem?-drop, take-elements,
}
use elfex.Common.Outcome.{Error, ok, err, checked_add, checked_add-some, u64_mod}
use elfex.Common.Slices.{splice}
use elfex.Elf.Build.Output.{max_image, grown, write_at}
use elfex.Elf.Edit.ReadBack.{length-splice}

-- A buffer holds a string of bytes at an offset.
pub record Holds (out : Bytes) (off : ℕ) (bs : Bytes) : Type 0 where
  pub room : off + length bs ≤ length out
  pub same : (i : ℕ) → i < length bs → get_elem? out (off + i) ≡ get_elem? bs i

-- A buffer has the bytes of an earlier one in a range, as far as that one had them.
pub record Keeps (lo hi : ℕ) (out out' : Bytes) : Type 0 where
  pub longer : length out ≤ length out'
  pub same : (j : ℕ) → lo ≤ j → j < hi → j < length out → get_elem? out' j ≡ get_elem? out j

pub Keeps-refl : (lo hi : ℕ) (out : Bytes) → Keeps lo hi out out
Keeps-refl lo hi out = record { longer = omega arith; same = λ j a b c. refl }

pub Keeps-trans : {lo hi : ℕ} {a b c : Bytes} → Keeps lo hi a b → Keeps lo hi b c → Keeps lo hi a c
Keeps-trans h k = record {
  longer = omega (arith, h.longer, k.longer);
  same = λ j x y z. k.same j x y (omega (arith, h.longer)) ∙ h.same j x y z;
}

pub Keeps-narrow :
    {lo hi lo' hi' : ℕ} {a b : Bytes} → lo ≤ lo' → hi' ≤ hi → Keeps lo hi a b → Keeps lo' hi' a b
Keeps-narrow l h k = record {
  longer = k.longer;
  same = λ j x y z. k.same j (omega arith) (omega arith) z;
}

pub Holds-Keeps :
    {lo hi off : ℕ} {out out' : Bytes} {bs : Bytes}
    → Holds out off bs
    → Keeps lo hi out out'
    → lo ≤ off
    → off + length bs ≤ hi
    → Holds out' off bs
Holds-Keeps {lo} {hi} {off} h k l u = record {
  room = omega (arith, h.room, k.longer);
  same = λ i b. k.same (off + i) (omega arith) (omega arith) (omega (arith, h.room)) ∙ h.same i b;
}

-- What a buffer holds, as the range of it.
pub Holds→take :
    {out : Bytes} {off : ℕ} {bs : Bytes} → Holds out off bs → take (length bs) (drop off out) ≡ bs
Holds→take {out} {off} {bs} h =
    take-elements (drop off out) bs (λ i b. get_elem?-drop off out i ∙ h.same i b)

pub length-grown : (out : Bytes) (end : ℕ) → length (grown out end) ≡ max (length out) end
unfolding grown
length-grown out end = elim (Bool-cases (ltb (length out) end)) [
  | inl short ↦ rw short (
      omega (
        arith,
        ltb→lt _ _ short,
        length-append out (replicate (end - length out) 0),
        length-replicate {A = ℕ} (end - length out) 0,
      ))
  | inr long ↦ rw long (omega (arith, ltb→ge _ _ long))
]

get_elem?-grown :
    (out : Bytes) (end j : ℕ) → j < length out → get_elem? (grown out end) j ≡ get_elem? out j
unfolding grown
get_elem?-grown out end j h = elim (Bool-cases (ltb (length out) end)) [
  | inl short ↦ rw short (get_elem?-append_left out _ j h)
  | inr long ↦ rw long
]

module _ (bytes : Bytes) (start : ℕ) (patch : Bytes)
    (inside : start + length patch ≤ length bytes) where
  length-before : length (take start bytes) ≡ start
  length-before = omega (arith, length-take start bytes)

  pub splice-before :
      (j : ℕ) → j < start → get_elem? (splice bytes start patch) j ≡ get_elem? bytes j
  unfolding splice
  splice-before j h =
      get_elem?-append_left (take start bytes) _ j (omega (arith, length-before))
      ∙ get_elem?-take start bytes j h

  pub splice-inside :
      (i : ℕ)
      → i < length patch
      → get_elem? (splice bytes start patch) (start + i) ≡ get_elem? patch i
  unfolding splice
  splice-inside i h =
      get_elem?-append_right (take start bytes) _ (start + i) (omega (arith, length-before))
      ∙ ap (get_elem? (patch ++ drop (start + length patch) bytes)) (omega (arith, length-before))
      ∙ get_elem?-append_left patch _ i h

  pub splice-after :
      (j : ℕ)
      → start + length patch ≤ j
      → get_elem? (splice bytes start patch) j ≡ get_elem? bytes j
  unfolding splice
  splice-after j h =
      get_elem?-append_right (take start bytes) _ j (omega (arith, length-before))
      ∙ ap (get_elem? (patch ++ drop (start + length patch) bytes)) {y = j - start}
          (omega (arith, length-before))
      ∙ get_elem?-append_right patch _ (j - start) (omega arith)
      ∙ get_elem?-drop (start + length patch) bytes (j - start - length patch)
      ∙ ap (get_elem? bytes) (omega arith)

-- The outcome of a write: its bytes stand at the offset, and all others as they were.
pub record Wrote (out : Bytes) (off : ℕ) (bs : Bytes) (out' : Bytes) : Type 0 where
  pub bound : off + length bs ≤ max_image
  pub size : length out' ≡ max (length out) (off + length bs)
  pub held : Holds out' off bs
  pub before : Keeps 0 off out out'
  pub after : (hi : ℕ) → Keeps (off + length bs) hi out out'

splice-Wrote :
    (out : Bytes) (off : ℕ) (bs : Bytes)
    → off + length bs ≤ max_image
    → Wrote out off bs (splice (grown out (off + length bs)) off bs)
splice-Wrote out off bs bound =
    let big = grown out (off + length bs) in
    let room : off + length bs ≤ length big = omega (arith, length-grown out (off + length bs)) in
    let size : length (splice big off bs) ≡ max (length out) (off + length bs) =
      length-splice big off bs room ∙ length-grown out (off + length bs) in
    record {
      bound = bound;
      size = size;
      held = record { room = omega (arith, size); same = λ i h. splice-inside big off bs room i h };
      before = record {
        longer = omega (arith, size);
        same = λ j a b c. splice-before big off bs room j b ∙ get_elem?-grown out _ j c;
      };
      after = λ hi. record {
        longer = omega (arith, size);
        same = λ j a b c. splice-after big off bs room j a ∙ get_elem?-grown out _ j c;
      };
    }

pub write_at-ok :
    (out : Bytes) (off : ℕ) (bs : Bytes)
    → off + length bs ≤ max_image
    → write_at out off bs ≡ ok (splice (grown out (off + length bs)) off bs)
unfolding write_at
write_at-ok out off bs h =
    rw (checked_add-some off (length bs) (omega arith), ge→ltb max_image (off + length bs) h)

write_at-limit :
    (out : Bytes) (off : ℕ) (bs : Bytes) {out' : Bytes}
    → write_at out off bs ≡ ok out'
    → off + length bs ≤ max_image
unfolding write_at checked_add
write_at-limit out off bs h = ground arith

ok-eq : {a b : Bytes} → ok a ≡ ok b → a ≡ b
ok-eq h = cc

pub write_at-Wrote :
    (out : Bytes) (off : ℕ) (bs : Bytes) {out' : Bytes}
    → write_at out off bs ≡ ok out'
    → Wrote out off bs out'
write_at-Wrote out off bs h =
    let bound = write_at-limit out off bs h in
    subst (Wrote out off bs) (ok-eq (sym (write_at-ok out off bs bound) ∙ h))
      (splice-Wrote out off bs bound)

write_at-err :
    (out : Bytes) (off : ℕ) (bs : Bytes)
    → max_image < off + length bs
    → (e : Error) × (write_at out off bs ≡ err e)
unfolding write_at checked_add
write_at-err out off bs h = elim (Bool-cases (ltb (off + length bs) u64_mod)) [
  | inl small ↦ rw (small, lt→ltb _ _ h) (_, refl)
  | inr big ↦ rw big (_, refl)
]

-- A write that ends within the limit of 256 MiB succeeds: the buffer is as long as before or
-- reaches the end of the write, holds the written bytes at the offset, and keeps all others. A
-- write that ends behind the limit is an error.
pub write_at_bounds :
    (out : Bytes) (off : ℕ) (bs : Bytes)
    → ((off + length bs ≤ max_image)
        × ((out' : Bytes) × (write_at out off bs ≡ ok out') × Wrote out off bs out'))
      ⊎ ((max_image < off + length bs) × ((e : Error) × (write_at out off bs ≡ err e)))
write_at_bounds out off bs = elim (le-cases (off + length bs) max_image) [
  | inl fits ↦ inl (fits, (_, write_at-ok out off bs fits, splice-Wrote out off bs fits))
  | inr large ↦ inr (large, write_at-err out off bs large)
]
