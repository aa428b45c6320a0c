-- ===== src/Elf/Validate/Ranges.antt =====
-- src/elf/validate.rs: the memory ranges of loadable segments and their order, that of tuples.
use elfex.Common.{ℕ, List, [], ◌∷◌, Bool, leb, ltb, ◌==◌, if◌then◌else◌}

-- `(start, end, index)`
pub record Range : Type 0 where
  pub start : ℕ
  pub end : ℕ
  pub index : ℕ

unfoldable pub range_le : Range → Range → Bool
range_le a b =
    if a.start == b.start
    then if a.end == b.end then leb a.index b.index else ltb a.end b.end
    else ltb a.start b.start

-- `sort_unstable`; the indices make every two ranges different, so that one sorted list exists.
unfoldable pub insert_range : Range → List Range → List Range
insert_range r [] = r ∷ []
insert_range r (x ∷ xs) =
    let rest = insert_range r xs in if range_le r x then r ∷ x ∷ xs else x ∷ rest

unfoldable pub sort_ranges : List Range → List Range
sort_ranges [] = []
sort_ranges (r ∷ rs) = insert_range r (sort_ranges rs)
