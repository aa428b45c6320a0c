-- ===== src/Common/Outcome.antt =====
-- The outcome of a fallible function, with the error values of src/error.rs.
use Prim.Native.Nat.{ℕ, ◌+◌, ◌-◌, ◌≤◌, ◌<◌}
use Prim.Native.String.{String}
use elfex.Common.Tests.{ltb, leb, if◌then◌else◌, lt→ltb, le→leb}
use mathlib.Core.Path.{◌≡◌}
use mathlib.Core.Bool.{Bool, true, false}
use mathlib.Core.Option.{Option, none, some}

pub record ErrorContext : Type 0 where
  pub offset : Option ℕ
  pub vaddr : Option ℕ
  pub structure : Option String

pub data ErrorKind : Type 0 where
  invalid_magic : ErrorKind
  invalid_class : ℕ → ErrorKind
  invalid_data_encoding : ℕ → ErrorKind
  invalid_type : ℕ → ErrorKind
  unsupported_machine : ℕ → ErrorKind
  buffer_too_small : ℕ → ℕ → ErrorKind
  invalid_section : String → ErrorKind
  offset_out_of_bounds : ℕ → ℕ → ErrorKind
  invalid_vaddr : ℕ → ErrorKind
  invalid_utf8 : ErrorKind
  generic : String → ErrorKind

pub record Error : Type 0 where
  pub kind : ErrorKind
  pub context : Option ErrorContext

-- `panic` is an overflow, an index out of bounds or a failed `expect`; `stuck` is no Rust value:
-- a loop of the model ran out of fuel.
pub data Outcome {ℓ} (A : Type ℓ) : Type ℓ where
  ok : A → Outcome A
  err : Error → Outcome A
  panic : Outcome A
  stuck : Outcome A

-- `Error::new(kind)` as a result
abbrev pub fail {ℓ} : {A : Type ℓ} → ErrorKind → Outcome A
fail k = err (record { kind = k; context = none })

infixl 5 ◌>>=◌ ◌>>◌
abbrev pub ◌>>=◌ {ℓ κ} : {A : Type ℓ} {B : Type κ} → Outcome A → (A → Outcome B) → Outcome B
panic >>= next = panic
stuck >>= next = stuck
ok value >>= next = next value
err failure >>= next = err failure

abbrev pub ◌>>◌ {κ} : {B : Type κ} → Outcome (Unit {0}) → Outcome B → Outcome B
first >> rest = first >>= λ _. rest

-- `if test { return Err(e) }`
abbrev pub reject_if : Bool → ErrorKind → Outcome (Unit {0})
reject_if true e = fail e
reject_if false e = ok tt

-- `x?` on an `Option` turned into a result by `ok_or_else`
abbrev pub ok_or {ℓ} : {A : Type ℓ} → Option A → ErrorKind → Outcome A
ok_or none e = fail e
ok_or (some a) e = ok a

-- `u64` and `usize` (of a 64-bit target) are the numbers below this.
abbrev pub u64_mod : ℕ
u64_mod = 0x10000000000000000

-- `a + b` and `a - b`, which panic on overflow, and their checked and saturating forms
unfoldable pub add_u64 : ℕ → ℕ → Outcome ℕ
add_u64 a b = if ltb (a + b) u64_mod then ok (a + b) else panic

unfoldable pub sub_u64 : ℕ → ℕ → Outcome ℕ
sub_u64 a b = if leb b a then ok (a - b) else panic

unfoldable pub checked_add : ℕ → ℕ → Option ℕ
checked_add a b = if ltb (a + b) u64_mod then some (a + b) else none

unfoldable pub checked_sub : ℕ → ℕ → Option ℕ
checked_sub a b = if leb b a then some (a - b) else none

unfoldable pub saturating_add : ℕ → ℕ → ℕ
saturating_add a b = if ltb (a + b) u64_mod then a + b else 0xffffffffffffffff

pub add_u64-ok : (a b : ℕ) → a + b < u64_mod → add_u64 a b ≡ ok (a + b)
unfolding add_u64
add_u64-ok a b h = rw (lt→ltb _ _ h)

pub checked_add-some : (a b : ℕ) → a + b < u64_mod → checked_add a b ≡ some (a + b)
unfolding checked_add
checked_add-some a b h = rw (lt→ltb _ _ h)

pub sub_u64-ok : (a b : ℕ) → b ≤ a → sub_u64 a b ≡ ok (a - b)
unfolding sub_u64
sub_u64-ok a b h = rw (le→leb _ _ h)

-- A chain that succeeds: what its first part gave, and how the rest went on.
pub bind-ok-parts {ℓ κ} :
    {A : Type ℓ} {B : Type κ} (first : Outcome A) (next : A → Outcome B) {r : B}
    → (first >>= next) ≡ ok r
    → (v : A) × (next v ≡ ok r) × (first ≡ ok v)
bind-ok-parts panic next h = cc
bind-ok-parts stuck next h = cc
bind-ok-parts (err failure) next h = cc
bind-ok-parts (ok v) next h = (v, h, λ i. ok v)

pub ok-injective {ℓ} : {A : Type ℓ} {v w : A} → ok v ≡ ok w → v ≡ w
ok-injective h = cc
