-- ===== src/Ident/RoundTrip.antt =====
-- The identification array, written and read back, and what an accepted array looks like.
use elfex.Common.{◌≡◌, arith}
use elfex.Common.Outcome.{ok}
use elfex.Common.Slices.{bytes_eq, index}
use elfex.Ident.{ElfIdent, parse, to_bytes}
use elfex.Ident.ElfClass
use elfex.Ident.Endian

-- Every identification comes back as it was written.
pub parse-to_bytes : (i : ElfIdent) → parse (to_bytes i) ≡ ok i
unfolding parse to_bytes bytes_eq index ElfClass.from_byte ElfClass.to_byte Endian.from_byte
    Endian.to_byte
parse-to_bytes i = ground arith
