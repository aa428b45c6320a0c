-- ===== src/Program/Typed.antt =====
-- A program header that is read from a source of bytes has fields in the range of their types and of the
-- class.
use elfex.Common.{ℕ, arith}
use elfex.Common.Gives.{Gives, Gives-ok}
use elfex.Ident.ElfClass.{ElfClass, elf32, elf64}
use elfex.Ident.Endian.{Endian}
use elfex.Program.{ProgramHeader, parse}
use elfex.Program.RoundTrip.{IsTyped, FitsClass}
use elfex.Reader.{ReadAt}
use elfex.Reader.Typed.{Honest, u32_then, u32_field_then, u64_field_then}

abbrev pub IsRead : ElfClass → ProgramHeader → Type 0
IsRead class h = IsTyped h × FitsClass class h

module _ (reader : ReadAt) (honest : Honest reader) (offset : ℕ) (e : Endian) where
  parse_64-IsRead : Gives (IsRead elf64) (parse reader offset e elf64)
  unfolding parse
  parse_64-IsRead = u32_then reader honest offset e (λ type a.
      u32_field_then reader honest offset 4 e (λ flags b.
        u64_field_then reader honest offset 8 e (λ p_offset c.
          u64_field_then reader honest offset 16 e (λ vaddr d.
            u64_field_then reader honest offset 24 e (λ paddr f.
              u64_field_then reader honest offset 32 e (λ filesz g.
                u64_field_then reader honest offset 40 e (λ memsz i.
                  u64_field_then reader honest offset 48 e
                    (λ align j. Gives-ok (omega arith)))))))))

  parse_32-IsRead : Gives (IsRead elf32) (parse reader offset e elf32)
  unfolding parse
  parse_32-IsRead = u32_then reader honest offset e (λ type a.
      u32_field_then reader honest offset 4 e (λ p_offset b.
        u32_field_then reader honest offset 8 e (λ vaddr c.
          u32_field_then reader honest offset 12 e (λ paddr d.
            u32_field_then reader honest offset 16 e (λ filesz f.
              u32_field_then reader honest offset 20 e (λ memsz g.
                u32_field_then reader honest offset 24 e (λ flags i.
                  u32_field_then reader honest offset 28 e
                    (λ align j. Gives-ok (omega arith)))))))))

  pub parse-IsRead : (class : ElfClass) → Gives (IsRead class) (parse reader offset e class)
  parse-IsRead elf64 = parse_64-IsRead
  parse-IsRead elf32 = parse_32-IsRead
