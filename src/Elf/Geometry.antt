-- ===== src/Elf/Geometry.antt =====
-- The geometry covers every loadable segment, and its base is on a page.
use elfex.Common.{
  ℕ, ◌+◌, ◌-◌, ◌*◌, ◌/◌, ◌%◌, ◌≤◌, ◌<◌, ◌≡◌, ◌≢◌, ap, ◌∙◌, arith, List, [], ◌∷◌, Option, none, some,
  Option-cases, inl, inr, ◌++◌,
}
use elfex.Common.Outcome.{saturating_add, u64_mod}
use elfex.Elf.{Load, Extent, ImageGeometry, lower, extend, extent, geometry_of, geometry}
use elfex.Elf.Align.{align_up-ge}
use native.Mathlib.Nat.{mod-add-div, mul-add-mod_self_left, mod-eq_of_lt}

abbrev AtLeast : Option ℕ → ℕ → Type 0
AtLeast none vaddr = ⊥
AtLeast (some low) vaddr = low ≤ vaddr

-- The extent reaches over the segment.
abbrev Reaches : Load → Extent → Type 0
Reaches l x = AtLeast x.min_vaddr l.vaddr × (l.vaddr + l.memsz ≤ x.max_end)

abbrev EndFits : Load → Type 0
EndFits l = l.vaddr + l.memsz < u64_mod

lower-AtLeast : (o : Option ℕ) (v w : ℕ) → AtLeast o w → AtLeast (some (lower o v)) w
unfolding lower
lower-AtLeast none v w h = absurd h
lower-AtLeast (some m) v w h = omega arith

lower-le : (o : Option ℕ) (v : ℕ) → lower o v ≤ v
unfolding lower
lower-le none v = omega arith
lower-le (some m) v = omega arith

extend-Reaches : (l : Load) (x : Extent) (next : Load) → Reaches l x → Reaches l (extend x next)
unfolding extend
extend-Reaches l x next r = ground (arith, lower-AtLeast x.min_vaddr next.vaddr l.vaddr)

extend-Reaches_self : (x : Extent) (l : Load) → l.memsz ≢ 0 → EndFits l → Reaches l (extend x l)
unfolding extend saturating_add
extend-Reaches_self x l h f = ground (arith, lower-le x.min_vaddr l.vaddr)

extend-max_end : (x : Extent) (l : Load) → x.max_end < u64_mod → (extend x l).max_end < u64_mod
unfolding extend saturating_add
extend-max_end x l h = ground arith

extend-page : (x : Extent) (l : Load) → 0 < x.page → 0 < (extend x l).page
unfolding extend
extend-page x l h = ground arith

extent-Reaches :
    (l : Load) (x : Extent) (loads : List Load) → Reaches l x → Reaches l (extent x loads)
unfolding extent
extent-Reaches l x [] r = r
extent-Reaches l x (next ∷ loads) r =
    extent-Reaches l (extend x next) loads (extend-Reaches l x next r)

extent-max_end :
    (x : Extent) (loads : List Load) → x.max_end < u64_mod → (extent x loads).max_end < u64_mod
unfolding extent
extent-max_end x [] h = h
extent-max_end x (l ∷ loads) h = extent-max_end (extend x l) loads (extend-max_end x l h)

extent-page : (x : Extent) (loads : List Load) → 0 < x.page → 0 < (extent x loads).page
unfolding extent
extent-page x [] h = h
extent-page x (l ∷ loads) h = extent-page (extend x l) loads (extend-page x l h)

-- The image holds the memory of the segment.
abbrev pub Covers : ImageGeometry → Load → Type 0
Covers g l = (g.base ≤ l.vaddr) × (l.vaddr + l.memsz ≤ g.base + g.span)

geometry_of-Covers :
    (x : Extent) (l : Load) → x.max_end < u64_mod → Reaches l x → Covers (geometry_of x) l
unfolding geometry_of
geometry_of-Covers x l h r = ground (arith, align_up-ge x.max_end x.page)

-- A segment that takes memory, and does not reach past the end of the address space.
abbrev pub IsPlaced : Load → Type 0
IsPlaced l = (l.memsz ≢ 0) × EndFits l

extent-Covers :
    (x : Extent) (before after : List Load) (l : Load)
    → x.max_end < u64_mod
    → IsPlaced l
    → Covers (geometry_of (extent x (before ++ l ∷ after))) l
unfolding extent
extent-Covers x [] after l h p =
    geometry_of-Covers (extent (extend x l) after) l
      (extent-max_end (extend x l) after (extend-max_end x l h))
      (extent-Reaches l (extend x l) after (extend-Reaches_self x l p.0 p.1))
extent-Covers x (next ∷ before) after l h p =
    extent-Covers (extend x next) before after l (extend-max_end x next h) p

-- The image, from its base on and over its span, holds the memory of every loadable segment that
-- takes memory below the end of the address space, whatever the other segments are.
pub geometry-Covers :
    (before after : List Load) (l : Load) → IsPlaced l → Covers (geometry (before ++ l ∷ after)) l
unfolding geometry
geometry-Covers before after l p = extent-Covers _ before after l (omega arith) p

page_floor : (v page : ℕ) → 0 < page → (v - v % page) % page ≡ 0
page_floor v page pos =
    ap (λ (k : ℕ). k % page) {y = page * (v / page) + 0} (omega (arith, mod-add-div v page))
    ∙ mul-add-mod_self_left page (v / page) 0
    ∙ mod-eq_of_lt pos

geometry_of-page : (x : Extent) → 0 < x.page → (geometry_of x).base % (geometry_of x).page ≡ 0
unfolding geometry_of
geometry_of-page x pos = elim (Option-cases x.min_vaddr) [
  | inl e ↦ rw (e, geometry_of) (mod-eq_of_lt pos)
  | inr (v, e) ↦ rw (e, geometry_of) (page_floor v x.page pos)
]

-- The base of the image is a multiple of its page size.
pub geometry-page : (loads : List Load) → (geometry loads).base % (geometry loads).page ≡ 0
unfolding geometry
geometry-page loads = geometry_of-page _ (extent-page _ loads (omega arith))
