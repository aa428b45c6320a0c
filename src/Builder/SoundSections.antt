-- ===== src/Builder/SoundSections.antt =====
-- The sections of the builder are in the range of their types, and have names.
use elfex.Builder.Suited.{IsSoundSection, small-section}
use elfex.Common.{le→leb, ◌≤◌}
use elfex.StringTable.{is_utf8}
use elfex.StringTable.Names.{empty-IsName}
use elfex.Builder.Pieces.{
  null_section, note_section, rela_section, rela_name, dynstr_section, dynamic_section,
  dynamic_name, dynstr_name, note_prefix,
}
use elfex.Builder.Serialize.{serialize_rela}
use elfex.Common.{ℕ, ◌<◌, ◌≡◌, ◌≢◌, refl, arith, Bytes, List, [], ◌∷◌, ◌++◌, true, length}
use elfex.Dynamic
use elfex.Ident.ElfClass.{ElfClass, elf32, elf64}
use elfex.Ident.Endian.{Endian}
use elfex.Reloc
use elfex.Reloc.{RelocationEntry}
use elfex.Section.{is_nobits}
use elfex.StringTable.Names.{IsName}

-- A byte of ASCII in front of UTF-8.
is_utf8-ascii :
    (a : ℕ) (bytes : Bytes) → a ≤ 0x7f → is_utf8 bytes ≡ true → is_utf8 (a ∷ bytes) ≡ true
unfolding is_utf8
is_utf8-ascii a [] h u = le→leb a 0x7f h
is_utf8-ascii a (b ∷ []) h u = rw (le→leb a 0x7f h) u
is_utf8-ascii a (b ∷ c ∷ []) h u = rw (le→leb a 0x7f h, is_utf8) u
is_utf8-ascii a (b ∷ c ∷ d ∷ rest) h u = rw (le→leb a 0x7f h, is_utf8) u

IsName-cons : (a : ℕ) (name : Bytes) → a ≤ 0x7f → a ≢ 0 → IsName name → IsName (a ∷ name)
IsName-cons a name h nul n = record {
  no_nul = (nul, n.no_nul);
  text = is_utf8-ascii a name h n.text;
}

note_name-IsName : (name : Bytes) → IsName name → IsName (note_prefix ++ name)
note_name-IsName name n =
    IsName-cons b'.' _ (omega arith) (λ z. absurd (omega arith))
      (IsName-cons b'n' _ (omega arith) (λ z. absurd (omega arith))
        (IsName-cons b'o' _ (omega arith) (λ z. absurd (omega arith))
          (IsName-cons b't' _ (omega arith) (λ z. absurd (omega arith))
            (IsName-cons b'e' _ (omega arith) (λ z. absurd (omega arith))
              (IsName-cons b'.' name (omega arith) (λ z. absurd (omega arith)) n)))))

AllAscii : Bytes → Type 0
AllAscii [] = Unit {0}
AllAscii (a ∷ bytes) = (a ≤ 0x7f) × (0 < a) × AllAscii bytes

ascii-IsName : (bytes : Bytes) → AllAscii bytes → IsName bytes
unfolding AllAscii
ascii-IsName [] h = empty-IsName
ascii-IsName (a ∷ bytes) h =
    IsName-cons a bytes h.0 (λ z. absurd (omega (arith, h.1))) (ascii-IsName bytes h.2)

-- A section of the builder, whose header has only a type, flags, a size, an alignment and a size of
-- entries.
pub null-IsSound : (class : ElfClass) → IsSoundSection class null_section
unfolding null_section is_nobits
null-IsSound class = record {
  regular = record {
    typed = omega arith;
    fits = small-section class _ (omega arith);
    name = empty-IsName;
  };
  bits = refl;
}

pub note_section-IsSound :
    (class : ElfClass) (name bytes : Bytes)
    → IsName name
    → length bytes < 0x100000000
    → IsSoundSection class (note_section name bytes)
unfolding note_section is_nobits
note_section-IsSound class name bytes n small = record {
  regular = record {
    typed = omega arith;
    fits = small-section class _ (omega arith);
    name = note_name-IsName name n;
  };
  bits = refl;
}

pub dynstr-IsSound :
    (class : ElfClass) (bytes : Bytes)
    → length bytes < 0x100000000
    → IsSoundSection class (dynstr_section bytes)
unfolding dynstr_section is_nobits AllAscii
dynstr-IsSound class bytes small = record {
  regular = record {
    typed = omega arith;
    fits = small-section class _ (omega arith);
    name = ascii-IsName dynstr_name (omega arith);
  };
  bits = refl;
}

entry_size-small : (class : ElfClass) → Dynamic.entry_size class < 0x100000000
unfolding Dynamic.entry_size
entry_size-small elf32 = omega arith
entry_size-small elf64 = omega arith

pub dynamic_section-IsSound :
    (class : ElfClass) (bytes : Bytes)
    → length bytes < 0x100000000
    → IsSoundSection class (dynamic_section bytes class)
unfolding dynamic_section is_nobits AllAscii
dynamic_section-IsSound class bytes small = record {
  regular = record {
    typed = omega (arith, entry_size-small class);
    fits = small-section class _ (omega (arith, entry_size-small class));
    name = ascii-IsName dynamic_name (omega arith);
  };
  bits = refl;
}

rela_size-small : (class : ElfClass) → Reloc.entry_size class true < 0x100000000
unfolding Reloc.entry_size
rela_size-small elf32 = omega arith
rela_size-small elf64 = omega arith

pub rela-IsSound :
    (class : ElfClass) (entries : List RelocationEntry) (e : Endian)
    → length (serialize_rela entries e class) < 0x100000000
    → IsSoundSection class (rela_section entries e class)
unfolding rela_section is_nobits AllAscii
rela-IsSound class entries e small = record {
  regular = record {
    typed = omega (arith, rela_size-small class);
    fits = small-section class _ (omega (arith, rela_size-small class));
    name = ascii-IsName rela_name (omega arith);
  };
  bits = refl;
}
