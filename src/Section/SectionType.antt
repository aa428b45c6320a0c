-- ===== src/Section/SectionType.antt =====
-- The constants of `SectionType` in src/section.rs: values of `sh_type`.
use elfex.Common.{ℕ}

abbrev pub null : ℕ
null = 0

abbrev pub progbits : ℕ
progbits = 1

abbrev pub symtab : ℕ
symtab = 2

abbrev pub strtab : ℕ
strtab = 3

abbrev pub rela : ℕ
rela = 4

abbrev pub hash : ℕ
hash = 5

abbrev pub dynamic : ℕ
dynamic = 6

abbrev pub note : ℕ
note = 7

abbrev pub nobits : ℕ
nobits = 8

abbrev pub rel : ℕ
rel = 9

abbrev pub shlib : ℕ
shlib = 10

abbrev pub dynsym : ℕ
dynsym = 11

abbrev pub init_array : ℕ
init_array = 14

abbrev pub fini_array : ℕ
fini_array = 15

abbrev pub preinit_array : ℕ
preinit_array = 16

abbrev pub group : ℕ
group = 17

abbrev pub symtab_shndx : ℕ
symtab_shndx = 18

abbrev pub relr : ℕ
relr = 19

abbrev pub gnu_hash : ℕ
gnu_hash = 0x6ffffff6

abbrev pub gnu_verdef : ℕ
gnu_verdef = 0x6ffffffd

abbrev pub gnu_verneed : ℕ
gnu_verneed = 0x6ffffffe

abbrev pub gnu_versym : ℕ
gnu_versym = 0x6fffffff
