-- ===== src/Common/Display.antt =====
-- src/error.rs: the texts of errors. How core::fmt writes a number, `{}` and `{:#x}`, is a parameter.
use Prim.Native.Nat.{ℕ}
use Prim.Native.String.{String, ◌++◌}
use Prim.Native.String.append
use elfex.Common.Outcome.{
  Error, ErrorContext, ErrorKind, invalid_magic, invalid_class, invalid_data_encoding, invalid_type,
  unsupported_machine, buffer_too_small, invalid_section, offset_out_of_bounds, invalid_vaddr,
  invalid_utf8, generic,
}
use elfex.Common.Tests.{if◌then◌else◌}
use mathlib.Core.Bool.{Bool, true, false}
use mathlib.Core.List.{List, [], ◌∷◌}
use mathlib.Core.Option.{Option, none, some}
use mathlib.Core.Path.{◌≡◌, refl}
use text.Mathlib.TextLemmas.{append_assoc}

pub record NumberFormat : Type 0 where
  pub decimal : ℕ → String
  pub hex : ℕ → String

-- The formatter's text, and whether a part has been written.
pub record Written : Type 0 where
  pub out : String
  pub separated : Bool

-- The closure `write_part`.
unfoldable pub write_part : Written → String → Written
write_part w part = record {
  out = (if w.separated then w.out ++ ", " else w.out) ++ part;
  separated = true;
}

-- `if let Some(value) = … { write_part(…) }`
unfoldable pub write_some {ℓ} : {A : Type ℓ} → (A → String) → Written → Option A → Written
write_some text w none = w
write_some text w (some value) = write_part w (text value)

abbrev in_text : String → String
in_text structure = "in " ++ structure

module _ (f : NumberFormat) where
  unfoldable pub kind_text : ErrorKind → String
  kind_text invalid_magic = "invalid ELF magic number"
  kind_text (invalid_class class) = "invalid ELF class " ++ f.hex class
  kind_text (invalid_data_encoding encoding) = "invalid ELF data encoding " ++ f.hex encoding
  kind_text (invalid_type object_type) = "invalid ELF object type " ++ f.hex object_type
  kind_text (unsupported_machine machine) = "unsupported ELF machine " ++ f.hex machine
  kind_text (buffer_too_small expected actual) =
      "buffer too small: expected " ++ f.decimal expected ++ " bytes, found " ++ f.decimal actual
  kind_text (invalid_section message) = "invalid section: " ++ message
  kind_text (offset_out_of_bounds offset size) =
      "offset " ++ f.hex offset ++ " is out of bounds for size " ++ f.hex size
  kind_text (invalid_vaddr vaddr) = "virtual address " ++ f.hex vaddr ++ " is not in the image"
  kind_text invalid_utf8 = "invalid UTF-8 in ELF string"
  kind_text (generic message) = message

  abbrev offset_text : ℕ → String
  offset_text offset = "at file offset " ++ f.hex offset

  abbrev vaddr_text : ℕ → String
  vaddr_text vaddr = "at virtual address " ++ f.hex vaddr

  unfoldable pub context_text : ErrorContext → String
  context_text c =
      let first = write_some in_text (record { out = ""; separated = false }) c.structure in
      let second = write_some offset_text first c.offset in
      (write_some vaddr_text second c.vaddr).out

  unfoldable pub error_text : Error → String
  error_text e = elim e.context [
    | none ↦ kind_text e.kind
    | some context ↦ kind_text e.kind ++ " (" ++ context_text context ++ ")"
  ]

abbrev shown {ℓ} : {A : Type ℓ} → (A → String) → Option A → List String → List String
shown text none more = more
shown text (some value) more = text value ∷ more

-- Texts with commas between them.
abbrev joined : List String → String
joined [] = ""
joined (x ∷ []) = x
joined (x ∷ y ∷ more) = x ++ ", " ++ joined (y ∷ more)

three_parts :
    (f : NumberFormat) (s : Option String) (o v : Option ℕ)
    → context_text f (record { structure = s; offset = o; vaddr = v })
      ≡ joined (shown in_text s (shown (offset_text f) o (shown (vaddr_text f) v [])))
unfolding context_text write_some write_part
three_parts f none none none = refl
three_parts f none none (some v) = append.nil (vaddr_text f v)
three_parts f none (some o) none = append.nil (offset_text f o)
three_parts f none (some o) (some v) =
    rw append.nil (append_assoc (offset_text f o) ", " (vaddr_text f v))
three_parts f (some s) none none = append.nil (in_text s)
three_parts f (some s) none (some v) =
    rw append.nil (append_assoc (in_text s) ", " (vaddr_text f v))
three_parts f (some s) (some o) none =
    rw append.nil (append_assoc (in_text s) ", " (offset_text f o))
three_parts f (some s) (some o) (some v) =
    rw (append.nil, append_assoc, append_assoc, append_assoc) refl

-- The text of a context has its parts with commas between them, whichever there are.
context_text-joined :
    (f : NumberFormat) (c : ErrorContext)
    → context_text f c
      ≡ joined (
          shown in_text c.structure
            (shown (offset_text f) c.offset (shown (vaddr_text f) c.vaddr [])))
unfolding context_text
context_text-joined f c = three_parts f c.structure c.offset c.vaddr
