-- ===== src/Header/Machine.antt =====
-- `Machine` of src/header.rs: the number that the newtype wraps, and its names.
use Prim.Native.String.{String}
use elfex.Common.{ℕ, Option, none, some, ◌==◌, if◌then◌else◌}

abbrev pub no_machine : ℕ
no_machine = 0

abbrev pub i386 : ℕ
i386 = 3

abbrev pub arm : ℕ
arm = 40

abbrev pub x86_64 : ℕ
x86_64 = 62

abbrev pub aarch64 : ℕ
aarch64 = 183

abbrev pub riscv : ℕ
riscv = 243

unfoldable pub name : ℕ → Option String
name machine =
    if machine == 3
    then some "i386"
    else if machine == 40
    then some "arm"
    else if machine == 62
    then some "x86-64"
    else if machine == 183
    then some "aarch64"
    else if machine == 243
    then some "riscv"
    else none
