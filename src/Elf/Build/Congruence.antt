-- ===== src/Elf/Build/Congruence.antt =====
-- The offsets at which segments are placed.
use elfex.Common.{
  ℕ, ◌+◌, ◌-◌, ◌%◌, ◌≤◌, ◌<◌, ◌≡◌, sym, ap, ◌∙◌, arith, ltb, leb, leb→le, ltb→lt, ltb→ge, ◌==◌,
  ==→eq, ==→ne, Bool-cases, inl, inr, if◌then◌else◌,
}
use elfex.Common.Outcome.{saturating_add, u64_mod}
use elfex.Elf.Build.Output.{congruent}
use native.Mathlib.Nat.{mod-add-mod, mod_self, mod-lt, mod-one, mod-eq_of_lt}

-- It never goes down, saturated or not.
pub congruent-ge :
    (cursor vaddr alignment : ℕ) → cursor < u64_mod → cursor ≤ congruent cursor vaddr alignment
unfolding congruent saturating_add
congruent-ge cursor vaddr alignment fits = ground arith

-- Up to the next place with a larger rest.
up_to_rest :
    (cursor target alignment : ℕ)
    → cursor % alignment ≤ target
    → target < alignment
    → (cursor + (target - cursor % alignment)) % alignment ≡ target
up_to_rest cursor target alignment below small =
    sym (mod-add-mod cursor alignment (target - cursor % alignment))
    ∙ ap (λ (k : ℕ). k % alignment) {y = target} (omega arith)
    ∙ mod-eq_of_lt small

-- Past the next multiple, to a smaller rest.
past_multiple :
    (cursor target alignment : ℕ)
    → target < cursor % alignment
    → cursor % alignment < alignment
    → (cursor + (alignment - (cursor % alignment - target))) % alignment ≡ target
past_multiple cursor target alignment above small =
    sym (mod-add-mod cursor alignment (alignment - (cursor % alignment - target)))
    ∙ ap (λ (k : ℕ). k % alignment) {y = alignment + target} (omega arith)
    ∙ sym (mod-add-mod alignment alignment target)
    ∙ ap (λ (k : ℕ). (k + target) % alignment) (mod_self alignment)
    ∙ ap (λ (k : ℕ). k % alignment) {y = target} (omega arith)
    ∙ mod-eq_of_lt (omega arith)

-- How far the offset lies behind the cursor.
gap : ℕ → ℕ → ℕ → ℕ
gap cursor vaddr alignment =
    let target = vaddr % alignment in
    let current = cursor % alignment in
    if leb alignment 1
    then 0
    else if current == target
    then 0
    else if ltb current target
    then target - current
    else alignment - (current - target)

congruent-gap :
    (cursor vaddr alignment : ℕ)
    → cursor < u64_mod
    → congruent cursor vaddr alignment ≡ saturating_add cursor (gap cursor vaddr alignment)
unfolding congruent gap saturating_add
congruent-gap cursor vaddr alignment fits = ground arith

gap_least :
    (cursor vaddr alignment : ℕ)
    → 0 < alignment
    → ((cursor + gap cursor vaddr alignment) % alignment ≡ vaddr % alignment)
      × (gap cursor vaddr alignment < alignment)
unfolding gap
gap_least cursor vaddr alignment pos = elim (Bool-cases (leb alignment 1)) [
  | inl one ↦
      let only : alignment ≡ 1 = omega (arith, leb→le alignment 1 one) in
      let all_same = λ (n : ℕ). ap (λ (k : ℕ). n % k) only ∙ mod-one n in
      rw one (all_same (cursor + 0) ∙ sym (all_same vaddr), pos)
  | inr more ↦ elim (Bool-cases (cursor % alignment == vaddr % alignment)) [
    | inl same ↦
        rw (more, same)
          (ap (λ (k : ℕ). k % alignment) {x = cursor + 0} (omega arith) ∙ ==→eq _ _ same, pos)
    | inr other ↦ elim (Bool-cases (ltb (cursor % alignment) (vaddr % alignment))) [
      | inl less ↦
          let below = ltb→lt _ _ less in
          let small = mod-lt vaddr pos in
          rw (more, other, less)
            (up_to_rest cursor (vaddr % alignment) alignment (omega arith) small, omega arith)
      | inr greater ↦
          let ge = ltb→ge _ _ greater in
          let ne = ==→ne _ _ other in
          let above : vaddr % alignment < cursor % alignment = ground arith in
          let small = mod-lt cursor pos in
          rw (more, other, greater)
            (past_multiple cursor (vaddr % alignment) alignment above small, omega arith)
    ]
  ]
]

saturating_add-small :
    (a b : ℕ) → saturating_add a b < 0xffffffffffffffff → saturating_add a b ≡ a + b
unfolding saturating_add
saturating_add-small a b h = ground arith

saturating_add-lt : (a b c : ℕ) → b < c → a + c < 0xffffffffffffffff → saturating_add a b < a + c
unfolding saturating_add
saturating_add-lt a b c h k = ground arith

-- For an alignment above zero and a `u64` cursor, where the offset is not the greatest `u64`, it is
-- congruent with the address, and it is the first one from the cursor on.
pub congruent_least :
    (cursor vaddr alignment : ℕ)
    → 0 < alignment
    → cursor < u64_mod
    → congruent cursor vaddr alignment < 0xffffffffffffffff
    → (congruent cursor vaddr alignment % alignment ≡ vaddr % alignment)
      × (cursor ≤ congruent cursor vaddr alignment)
      × (congruent cursor vaddr alignment < cursor + alignment)
congruent_least cursor vaddr alignment pos fits small =
    let e = congruent-gap cursor vaddr alignment fits in
    let exact = e ∙ saturating_add-small cursor (gap cursor vaddr alignment) (omega (arith, e)) in
    let least = gap_least cursor vaddr alignment pos in
    rw exact (least.0, omega arith, omega (arith, least.1))

-- It stays within one alignment of the cursor, while that is far from the greatest `u64`.
pub congruent-lt :
    (cursor vaddr alignment : ℕ)
    → 0 < alignment
    → cursor + alignment < 0xffffffffffffffff
    → congruent cursor vaddr alignment < cursor + alignment
congruent-lt cursor vaddr alignment pos fits =
    let least = gap_least cursor vaddr alignment pos in
    rw (congruent-gap cursor vaddr alignment (omega arith))
      (saturating_add-lt cursor (gap cursor vaddr alignment) alignment least.1 fits)
