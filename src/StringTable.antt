-- ===== src/StringTable.antt =====
-- src/strtab.rs: names in a block of NUL-terminated strings. A `String` is its UTF-8 bytes.
pub mod Names
use elfex.Common.{
  ℕ, ◌≡◌, Bytes, [], ◌∷◌, Option, none, some, Bool, true, false, ◌==◌, ◌&&◌, leb, if◌then◌else◌,
}
use elfex.Common.Slices.{get_from}

-- `bytes[..end]` for the position `end` of the first zero byte, or all of it.
unfoldable pub until_nul : Bytes → Bytes
until_nul [] = []
until_nul (b ∷ bs) = elim (b == 0) [ true ↦ [] | false ↦ b ∷ until_nul bs ]

-- `core::str::from_utf8`: the well-formed sequences of the Unicode standard, by their first bytes.
abbrev in_range : ℕ → ℕ → ℕ → Bool
in_range lo hi b = leb lo b && leb b hi

abbrev is_tail : ℕ → Bool
is_tail = in_range 0x80 0xbf

-- The second byte that a three- or four-byte sequence may have after its first.
abbrev second_ok : ℕ → ℕ → Bool
second_ok a b =
    if a == 0xe0
    then in_range 0xa0 0xbf b
    else if a == 0xed
    then in_range 0x80 0x9f b
    else if a == 0xf0
    then in_range 0x90 0xbf b
    else if a == 0xf4
    then in_range 0x80 0x8f b
    else is_tail b

unfoldable pub is_utf8 : Bytes → Bool
is_utf8 [] = true
is_utf8 (a ∷ []) = leb a 0x7f
is_utf8 (a ∷ b ∷ []) = if leb a 0x7f then leb b 0x7f else in_range 0xc2 0xdf a && is_tail b
is_utf8 (a ∷ b ∷ c ∷ []) = elim (leb a 0x7f) [
  | true ↦ is_utf8 (b ∷ c ∷ [])
  | false ↦ elim (in_range 0xc2 0xdf a) [
    | true ↦ is_tail b && leb c 0x7f
    | false ↦ in_range 0xe0 0xef a && second_ok a b && is_tail c
  ]
]
is_utf8 (a ∷ b ∷ c ∷ d ∷ rest) = elim (leb a 0x7f) [
  | true ↦ is_utf8 (b ∷ c ∷ d ∷ rest)
  | false ↦ elim (in_range 0xc2 0xdf a) [
    | true ↦ is_tail b && is_utf8 (c ∷ d ∷ rest)
    | false ↦ elim (in_range 0xe0 0xef a) [
      | true ↦ second_ok a b && is_tail c && is_utf8 (d ∷ rest)
      | false ↦ in_range 0xf0 0xf4 a && second_ok a b && is_tail c && is_tail d && is_utf8 rest
    ]
  ]
]

unfoldable pub from_utf8 : Bytes → Option Bytes
from_utf8 bytes = if is_utf8 bytes then some bytes else none

-- `StringTable::get`
unfoldable pub get : Bytes → ℕ → Option Bytes
get table offset = elim (get_from table offset) [
  | none ↦ none
  | some tail ↦ from_utf8 (until_nul tail)
]

pub from_utf8-some : (bytes : Bytes) → is_utf8 bytes ≡ true → from_utf8 bytes ≡ some bytes
unfolding from_utf8
from_utf8-some bytes h = rw h
