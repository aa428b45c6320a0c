-- ===== src/Header/ElfType.antt =====
-- `ElfType` of src/header.rs.
use elfex.Common.{ℕ, ◌≡◌, arith, ◌==◌, if◌then◌else◌}

pub data ElfType : Type 0 where
  none rel exec dyn core : ElfType
  other : ℕ → ElfType

unfoldable pub from_u16 : ℕ → ElfType
from_u16 value =
    if value == 0
    then none
    else if value == 1
    then rel
    else if value == 2
    then exec
    else if value == 3
    then dyn
    else if value == 4
    then core
    else other value

unfoldable pub to_u16 : ElfType → ℕ
to_u16 none = 0
to_u16 rel = 1
to_u16 exec = 2
to_u16 dyn = 3
to_u16 core = 4
to_u16 (other value) = value

-- The object type that is read from a raw value gives the raw value back.
pub to_u16-from_u16 : (v : ℕ) → to_u16 (from_u16 v) ≡ v
unfolding to_u16 from_u16
to_u16-from_u16 v = ground arith
