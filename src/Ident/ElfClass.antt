-- ===== src/Ident/ElfClass.antt =====
-- `ElfClass` of src/ident.rs.
use elfex.Common.{ℕ, Bool, true, false, ◌==◌, if◌then◌else◌}
use elfex.Common.Outcome.{Outcome, ok, fail, invalid_class}

pub data ElfClass : Type 0 where
  elf32 elf64 : ElfClass

unfoldable pub from_byte : ℕ → Outcome ElfClass
from_byte value =
    if value == 1 then ok elf32 else if value == 2 then ok elf64 else fail (invalid_class value)

unfoldable pub to_byte : ElfClass → ℕ
to_byte elf32 = 1
to_byte elf64 = 2

unfoldable pub is_64bit : ElfClass → Bool
is_64bit elf32 = false
is_64bit elf64 = true
