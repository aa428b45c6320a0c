-- ===== src/Header/Typed.antt =====
-- A file header that is read from a source of bytes has fields in the range of their types, and of
-- its class, and the identification it was read with.
use elfex.Common.{ℕ, ◌<◌, ◌+◌, ◌≡◌, refl, arith}
use elfex.Common.Gives.{Gives, Gives-ok, Gives-bind}
use elfex.Common.Outcome.{u64_mod}
use elfex.Header.{ElfHeader, parse, parse_addresses}
use elfex.Header.ElfType.{to_u16-from_u16}
use elfex.Header.RoundTrip.{IsTyped}
use elfex.Ident.{ElfIdent}
use elfex.Ident.ElfClass.{ElfClass, elf32, elf64}
use elfex.Ident.Endian.{Endian}
use elfex.Reader.{ReadAt}
use elfex.Reader.Typed.{Honest, u16_then, u32_then, u64_then}

-- The fields that a 32-bit object stores in 32 bits, and a 64-bit one in 64.
pub record FitsElf32 (h : ElfHeader) : Type 0 where
  pub entry_fits : h.entry < 0x100000000
  pub phoff_fits : h.phoff < 0x100000000
  pub shoff_fits : h.shoff < 0x100000000

abbrev pub FitsClass : ElfClass → ElfHeader → Type 0
FitsClass elf64 h = Unit {0}
FitsClass elf32 h = FitsElf32 h

abbrev pub IsRead : ElfIdent → ElfHeader → Type 0
IsRead ident h = (h.ident ≡ ident) × IsTyped h × FitsClass ident.class h

-- The range of an address in a class.
abbrev address_limit : ElfClass → ℕ
address_limit elf64 = u64_mod
address_limit elf32 = 0x100000000

abbrev InRange : ElfClass → ℕ × ℕ × ℕ × ℕ → Type 0
InRange class (entry, phoff, shoff, tail) =
    (entry < address_limit class) × (phoff < address_limit class) × (shoff < address_limit class)

address_limit-le : (class : ElfClass) (v : ℕ) → v < address_limit class → v < u64_mod
address_limit-le elf32 v h = omega arith
address_limit-le elf64 v h = h

fits-InRange :
    (class : ElfClass) (h : ElfHeader)
    → (h.entry < address_limit class)
    → (h.phoff < address_limit class)
    → (h.shoff < address_limit class)
    → FitsClass class h
fits-InRange elf32 h a b c = record { entry_fits = a; phoff_fits = b; shoff_fits = c }
fits-InRange elf64 h a b c = tt

module _ (reader : ReadAt) (honest : Honest reader) where
  parse_addresses-InRange :
      (e : Endian) (class : ElfClass) → Gives (InRange class) (parse_addresses reader e class)
  unfolding parse_addresses
  parse_addresses-InRange e elf64 = u64_then reader honest 24 e (λ entry a.
      u64_then reader honest 32 e
        (λ phoff b. u64_then reader honest 40 e (λ shoff c. Gives-ok (a, b, c))))
  parse_addresses-InRange e elf32 = u32_then reader honest 24 e (λ entry a.
      u32_then reader honest 28 e
        (λ phoff b. u32_then reader honest 32 e (λ shoff c. Gives-ok (a, b, c))))

  pub parse-IsRead : (ident : ElfIdent) → Gives (IsRead ident) (parse reader ident)
  unfolding parse
  parse-IsRead ident =
      let e = ident.encoding in
      u16_then reader honest 18 e (λ machine a.
        Gives-bind (parse_addresses reader e ident.class) (parse_addresses-InRange e ident.class)
          (λ r s. u16_then reader honest 16 e (λ type b. u32_then reader honest 20 e (λ version c.
            u32_then reader honest r.3 e (λ flags d. u16_then reader honest (r.3 + 4) e (λ ehsize f.
              u16_then reader honest (r.3 + 6) e (λ phentsize g.
                u16_then reader honest (r.3 + 8) e (λ phnum i.
                  u16_then reader honest (r.3 + 10) e (λ shentsize j.
                    u16_then reader honest (r.3 + 12) e (λ shnum k.
                      u16_then reader honest (r.3 + 14) e (λ shstrndx l. Gives-ok (
                        refl,
                        record {
                          type_lt = rw (to_u16-from_u16 type) b;
                          machine_lt = a;
                          version_lt = c;
                          entry_lt = address_limit-le ident.class r.0 s.0;
                          phoff_lt = address_limit-le ident.class r.1 s.1;
                          shoff_lt = address_limit-le ident.class r.2 s.2;
                          flags_lt = d;
                          ehsize_lt = f;
                          phentsize_lt = g;
                          phnum_lt = i;
                          shentsize_lt = j;
                          shnum_lt = k;
                          shstrndx_lt = l;
                        },
                        fits-InRange ident.class _ s.0 s.1 s.2,
                      ))))))))))))
