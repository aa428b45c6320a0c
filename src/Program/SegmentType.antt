-- ===== src/Program/SegmentType.antt =====
-- The constants of `SegmentType` in src/program.rs: values of `p_type`.
use elfex.Common.{ℕ}

abbrev pub null : ℕ
null = 0

abbrev pub load : ℕ
load = 1

abbrev pub dynamic : ℕ
dynamic = 2

abbrev pub interp : ℕ
interp = 3

abbrev pub note : ℕ
note = 4

abbrev pub shlib : ℕ
shlib = 5

abbrev pub phdr : ℕ
phdr = 6

abbrev pub tls : ℕ
tls = 7

abbrev pub gnu_eh_frame : ℕ
gnu_eh_frame = 0x6474e550

abbrev pub gnu_stack : ℕ
gnu_stack = 0x6474e551

abbrev pub gnu_relro : ℕ
gnu_relro = 0x6474e552
