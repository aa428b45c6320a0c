-- ===== src/Elf/Align.antt =====
-- `align_up`: the least multiple that is no smaller.
use elfex.Common.{
  ℕ, ◌+◌, ◌-◌, ◌%◌, ◌≤◌, ◌<◌, ◌≡◌, ◌≢◌, sym, ap, ◌∙◌, arith, lt→ltb, leb, inl, inr, ◌==◌,
  Bool-cases, ==→eq, leb→le,
}
use elfex.Common.Outcome.{saturating_add, u64_mod}
use elfex.Elf.{align_up}
use native.Mathlib.Nat.{mod-add-mod, mod_self, mod-lt, mod-one}

-- Up to the next multiple.
next_multiple :
    (value alignment : ℕ)
    → 0 < alignment
    → (value + (alignment - value % alignment)) % alignment ≡ 0
next_multiple value alignment pos =
    sym (mod-add-mod value alignment (alignment - value % alignment))
    ∙ ap (λ (k : ℕ). k % alignment) {y = alignment} (omega (arith, mod-lt value pos))
    ∙ mod_self alignment

-- For an alignment above zero, and a sum of value and alignment below 2^64, `align_up` returns a
-- multiple of the alignment, and the first one that is not below the value.
pub align_up_least :
    (value alignment : ℕ)
    → 0 < alignment
    → value + alignment < u64_mod
    → (align_up value alignment % alignment ≡ 0)
      × (value ≤ align_up value alignment)
      × (align_up value alignment < value + alignment)
unfolding align_up saturating_add
align_up_least value alignment pos fits = elim (Bool-cases (leb alignment 1)) [
  | inl one ↦
      let only : alignment ≡ 1 = omega (arith, leb→le alignment 1 one) in
      rw one (ap (λ (k : ℕ). value % k) only ∙ mod-one value, omega arith, omega arith)
  | inr more ↦ elim (Bool-cases (value % alignment == 0)) [
    | inl whole ↦ rw (more, whole) (==→eq _ 0 whole, omega arith, omega arith)
    | inr part ↦
        let up = lt→ltb (value + (alignment - value % alignment)) u64_mod (omega arith) in
        let rest : value % alignment ≢ 0 = ground arith in
        rw (more, part, up)
          (next_multiple value alignment pos, omega arith, omega (arith, mod-lt value pos))
  ]
]

-- It never goes down, saturated or not.
pub align_up-ge : (value alignment : ℕ) → value < u64_mod → value ≤ align_up value alignment
unfolding align_up saturating_add
align_up-ge value alignment fits = ground arith
