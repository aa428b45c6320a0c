-- ===== src/Dynamic/DynTag.antt =====
-- The constants of `DynTag` in src/dynamic.rs.
use elfex.Common.{ℕ}

abbrev pub null : ℕ
null = 0

abbrev pub needed : ℕ
needed = 1

abbrev pub pltrelsz : ℕ
pltrelsz = 2

abbrev pub pltgot : ℕ
pltgot = 3

abbrev pub hash : ℕ
hash = 4

abbrev pub strtab : ℕ
strtab = 5

abbrev pub symtab : ℕ
symtab = 6

abbrev pub rela : ℕ
rela = 7

abbrev pub relasz : ℕ
relasz = 8

abbrev pub relaent : ℕ
relaent = 9

abbrev pub strsz : ℕ
strsz = 10

abbrev pub syment : ℕ
syment = 11

abbrev pub init : ℕ
init = 12

abbrev pub fini : ℕ
fini = 13

abbrev pub soname : ℕ
soname = 14

abbrev pub rpath : ℕ
rpath = 15

abbrev pub symbolic : ℕ
symbolic = 16

abbrev pub rel : ℕ
rel = 17

abbrev pub relsz : ℕ
relsz = 18

abbrev pub relent : ℕ
relent = 19

abbrev pub pltrel : ℕ
pltrel = 20

abbrev pub debug : ℕ
debug = 21

abbrev pub textrel : ℕ
textrel = 22

abbrev pub jmprel : ℕ
jmprel = 23

abbrev pub bind_now : ℕ
bind_now = 24

abbrev pub init_array : ℕ
init_array = 25

abbrev pub fini_array : ℕ
fini_array = 26

abbrev pub init_arraysz : ℕ
init_arraysz = 27

abbrev pub fini_arraysz : ℕ
fini_arraysz = 28

abbrev pub runpath : ℕ
runpath = 29

abbrev pub flags : ℕ
flags = 30

abbrev pub encoding : ℕ
encoding = 31

abbrev pub preinit_array : ℕ
preinit_array = 32

abbrev pub preinit_arraysz : ℕ
preinit_arraysz = 33

abbrev pub symtab_shndx : ℕ
symtab_shndx = 34

abbrev pub relrsz : ℕ
relrsz = 35

abbrev pub relr : ℕ
relr = 36

abbrev pub relrent : ℕ
relrent = 37

abbrev pub gnu_hash : ℕ
gnu_hash = 0x6ffffef5

abbrev pub versym : ℕ
versym = 0x6ffffff0

abbrev pub relacount : ℕ
relacount = 0x6ffffff9

abbrev pub relcount : ℕ
relcount = 0x6ffffffa

abbrev pub flags_1 : ℕ
flags_1 = 0x6ffffffb

abbrev pub verdef : ℕ
verdef = 0x6ffffffc

abbrev pub verdefnum : ℕ
verdefnum = 0x6ffffffd

abbrev pub verneed : ℕ
verneed = 0x6ffffffe

abbrev pub verneednum : ℕ
verneednum = 0x6fffffff
