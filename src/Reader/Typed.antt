-- ===== src/Reader/Typed.antt =====
-- What is read from a source of bytes is a word of its width.
use elfex.Common.{
  ℕ, zero, suc, ◌+◌, ◌-◌, ◌^◌, ◌<◌, ◌≡◌, subst, arith, Bytes, [], IsByte, ◌++◌, ltb, ◌==◌, some,
  leb, Bool-cases, Option-cases, inl, inr, All, All-append, All-take, All-drop, length, take, drop,
  replicate, length-replicate, min,
}
use elfex.Common.Gives.{Gives, Gives-ok, Gives-bind, Gives-if, Gives-any, Gives-stuck}
use elfex.Common.Outcome.{Outcome, ok, ◌>>=◌, add_u64, reject_if, checked_add, ok_or, u64_mod}
use elfex.Common.Slices.{get_from}
use elfex.Ident.Endian.{Endian, word}
use elfex.Ident.Words.{word-lt}
use elfex.Reader.{
  ReadAt, read_exact_loop, read_exact_at, read_u16_at, read_u32_at, read_u64_at, u32_field,
  u64_field, slice_read_at, slice_reader,
}
use elfex.Reader.Total.{Answers, slice_reader-Answers, read_exact_at-Fills, Fills, after_read}

-- A source that answers, and whose buffers hold bytes.
pub record Honest (reader : ReadAt) : Type 0 where
  pub answers : Answers reader
  pub bytes : (offset : ℕ) (buf : Bytes) → All IsByte buf → All IsByte (reader.read_at offset buf).0

-- The rest of a list of bytes is one too.
get_from-IsByte :
    (bytes available : Bytes) (offset : ℕ)
    → All IsByte bytes
    → get_from bytes offset ≡ some available
    → All IsByte available
unfolding get_from
get_from-IsByte bytes available offset h e = elim (Bool-cases (leb offset (length bytes))) [
  | inl within ↦
      let found : some (drop offset bytes) ≡ some available = rw within at e in
      let same : drop offset bytes ≡ available = cc in
      subst (All IsByte) same (All-drop IsByte offset bytes h)
  | inr beyond ↦ absurd (let none' = rw beyond at e in cc)
]

pub slice_reader-Honest : (bytes : Bytes) → All IsByte bytes → Honest (slice_reader bytes)
unfolding slice_read_at
slice_reader-Honest bytes h = record {
  answers = slice_reader-Answers bytes;
  bytes = λ offset buf b. elim (Option-cases (get_from bytes offset)) [
    | inl absent ↦ rw (absent, slice_read_at) b
    | inr (available, found) ↦
        let count = min (length available) (length buf) in
        rw (found, slice_read_at)
          (All-append IsByte (take count available) (drop count buf)
            (All-take IsByte count available (get_from-IsByte bytes available offset h found))
            (All-drop IsByte count buf b))
  ];
}

zeros-IsByte : (n : ℕ) → All IsByte (replicate n 0)
zeros-IsByte zero = tt
zeros-IsByte (suc n) = (omega arith, zeros-IsByte n)

-- A read of `n` bytes gives a string of that length.
pub read_zeros-length :
    (reader : ReadAt) (offset n : ℕ)
    → Answers reader
    → Gives (λ (b : Bytes). length b ≡ n) (read_exact_at reader offset (replicate n 0))
read_zeros-length reader offset n answers = record {
  holds = λ b e.
      let zeros : Bytes = replicate n 0 in
      let fills =
        subst (Fills reader offset (length zeros) []) e
          (read_exact_at-Fills reader offset zeros answers) in
      omega (arith, fills.0, length-replicate {A = ℕ} n 0);
}

module _ (reader : ReadAt) (honest : Honest reader) where
  -- What is left of a round keeps bytes bytes.
  after_read-IsByte :
      (offset expected fuel total : ℕ) (buf filled : Bytes) (answer : Outcome ℕ)
      → ((t : ℕ) (b : Bytes)
          → All IsByte b
          → Gives (All IsByte) (read_exact_loop reader offset expected fuel t b))
      → All IsByte buf
      → All IsByte filled
      → Gives (All IsByte) (after_read reader offset expected fuel total buf filled answer)
  after_read-IsByte offset expected fuel total buf filled answer ih h k =
      Gives-bind answer Gives-any (λ count a.
        Gives-bind (reject_if (count == 0) _) Gives-any (λ u b.
          Gives-bind (reject_if (ltb (expected - total) count) _) Gives-any (λ v c.
            ih (total + count) (take total buf ++ filled)
              (All-append IsByte (take total buf) filled (All-take IsByte total buf h) k))))

  read_exact_loop-IsByte :
      (offset expected fuel total : ℕ) (buf : Bytes)
      → All IsByte buf
      → Gives (All IsByte) (read_exact_loop reader offset expected fuel total buf)
  unfolding read_exact_loop
  read_exact_loop-IsByte offset expected zero total buf h =
      Gives-if (ltb total expected) Gives-stuck (Gives-ok h)
  read_exact_loop-IsByte offset expected (suc fuel) total buf h =
      Gives-if (ltb total expected)
        (Gives-bind (ok_or (checked_add offset total) _) Gives-any (λ current a.
          after_read-IsByte offset expected fuel total buf
            (reader.read_at current (drop total buf)).0 (reader.read_at current (drop total buf)).1
            (λ t b k. read_exact_loop-IsByte offset expected fuel t b k) h
            (honest.bytes current (drop total buf) (All-drop IsByte total buf h))))
        (Gives-ok h)

  pub read_zeros-Gives :
      (offset n : ℕ)
      → Gives
          (λ (b : Bytes). All IsByte b × (length b ≡ n))
          (read_exact_at reader offset (replicate n 0))
  unfolding read_exact_at
  read_zeros-Gives offset n = record {
    holds = λ b e. (
      (read_exact_loop-IsByte offset (length (replicate {A = ℕ} n 0))
            (length (replicate {A = ℕ} n 0)) 0 (replicate n 0) (zeros-IsByte n)).holds
          b e,
      (read_zeros-length reader offset n honest.answers).holds b e,
    );
  }

  word-Gives :
      (offset n : ℕ) (e : Endian)
      → Gives
          (λ (v : ℕ). v < 256 ^ n)
          (read_exact_at reader offset (replicate n 0) >>= λ b. ok (word e b))
  word-Gives offset n e =
      Gives-bind (read_exact_at reader offset (replicate n 0)) (read_zeros-Gives offset n)
        (λ b h. Gives-ok (subst (λ (k : ℕ). word e b < 256 ^ k) h.1 (word-lt e b h.0)))

  -- A word that is read, and what is done with it.
  pub u16_then :
      {B : Type 0} {Q : B → Type 0} {f : ℕ → Outcome B} (offset : ℕ) (e : Endian)
      → ((v : ℕ) → v < 0x10000 → Gives Q (f v))
      → Gives Q (read_u16_at reader offset e >>= f)
  unfolding read_u16_at
  u16_then offset e k = Gives-bind (read_u16_at reader offset e) (word-Gives offset 2 e) k

  pub u32_then :
      {B : Type 0} {Q : B → Type 0} {f : ℕ → Outcome B} (offset : ℕ) (e : Endian)
      → ((v : ℕ) → v < 0x100000000 → Gives Q (f v))
      → Gives Q (read_u32_at reader offset e >>= f)
  unfolding read_u32_at
  u32_then offset e k = Gives-bind (read_u32_at reader offset e) (word-Gives offset 4 e) k

  pub u64_then :
      {B : Type 0} {Q : B → Type 0} {f : ℕ → Outcome B} (offset : ℕ) (e : Endian)
      → ((v : ℕ) → v < u64_mod → Gives Q (f v))
      → Gives Q (read_u64_at reader offset e >>= f)
  unfolding read_u64_at
  u64_then offset e k = Gives-bind (read_u64_at reader offset e) (word-Gives offset 8 e) k

  pub u32_field_then :
      {B : Type 0} {Q : B → Type 0} {f : ℕ → Outcome B} (offset k : ℕ) (e : Endian)
      → ((v : ℕ) → v < 0x100000000 → Gives Q (f v))
      → Gives Q (u32_field reader offset k e >>= f)
  unfolding u32_field read_u32_at
  u32_field_then offset k e next =
      Gives-bind (u32_field reader offset k e)
        (Gives-bind (add_u64 offset k) Gives-any (λ at a. word-Gives at 4 e)) next

  pub u64_field_then :
      {B : Type 0} {Q : B → Type 0} {f : ℕ → Outcome B} (offset k : ℕ) (e : Endian)
      → ((v : ℕ) → v < u64_mod → Gives Q (f v))
      → Gives Q (u64_field reader offset k e >>= f)
  unfolding u64_field read_u64_at
  u64_field_then offset k e next =
      Gives-bind (u64_field reader offset k e)
        (Gives-bind (add_u64 offset k) Gives-any (λ at a. word-Gives at 8 e)) next
