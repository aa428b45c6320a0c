-- ===== src/StringTable/Names.antt =====
-- Names that stand in a string table, found again.
use elfex.Common.{
  ℕ, ◌==◌, ==→ne, Bool-cases, Option-cases, inl, inr, subst, ◌≡◌, ◌≢◌, refl, arith, Bytes, [], ◌∷◌,
  ◌++◌, some, true, All, length, length-append, drop-append,
}
use elfex.Common.Slices.{get_from, get_from-some}
use elfex.StringTable
use elfex.StringTable.{is_utf8, until_nul, from_utf8, from_utf8-some}

-- A name that a string table can hold and give back.
pub record IsName (name : Bytes) : Type 0 where
  pub no_nul : All (λ b. b ≢ 0) name
  pub text : is_utf8 name ≡ true

until_nul-name : (name rest : Bytes) → All (λ b. b ≢ 0) name → until_nul (name ++ (0 ∷ rest)) ≡ name
unfolding until_nul
until_nul-name [] rest h = refl
until_nul-name (b ∷ bs) rest h = ground (arith, h.0, until_nul-name bs rest h.1)

-- A name behind a front part of the table is found there.
pub get-name :
    (front name rest : Bytes)
    → IsName name
    → StringTable.get (front ++ (name ++ (0 ∷ rest))) (length front) ≡ some name
unfolding StringTable.get
get-name front name rest h = rw (
  get_from-some (front ++ (name ++ (0 ∷ rest))) (length front)
      (omega (arith, length-append front (name ++ (0 ∷ rest)))),
  drop-append (length front) front (name ++ (0 ∷ rest)) refl,
  until_nul-name name rest h.no_nul,
  from_utf8-some name h.text,
  StringTable.get,
)

until_nul-no_nul : (bytes : Bytes) → All (λ b. b ≢ 0) (until_nul bytes)
unfolding until_nul
until_nul-no_nul [] = tt
until_nul-no_nul (b ∷ bs) = elim (Bool-cases (b == 0)) [
  | inl nul ↦ rw (nul, until_nul) tt
  | inr other ↦ rw (other, until_nul) (==→ne b 0 other, until_nul-no_nul bs)
]

-- What is found in a string table is a name.
pub get-IsName :
    (table name : Bytes) (offset : ℕ) → StringTable.get table offset ≡ some name → IsName name
unfolding StringTable.get from_utf8
get-IsName table name offset h = elim (Option-cases (get_from table offset)) [
  | inl absent ↦ absurd (let e = rw (absent, StringTable.get) at h in cc)
  | inr (tail, found) ↦ elim (Bool-cases (is_utf8 (until_nul tail))) [
    | inl text ↦
        let e : some (until_nul tail) ≡ some name = rw (found, text, StringTable.get) at h in
        let same : until_nul tail ≡ name = cc in
        subst IsName same (record { no_nul = until_nul-no_nul tail; text = text })
    | inr bad ↦ absurd (let e = rw (found, bad, StringTable.get) at h in cc)
  ]
]

pub empty-IsName : IsName []
unfolding is_utf8
empty-IsName = record { no_nul = tt; text = refl }
