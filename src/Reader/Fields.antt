-- ===== src/Reader/Fields.antt =====
-- Reading a row of fields back from a slice that holds their encodings.
use elfex.Common.{
  ℕ, ◌+◌, ◌≤◌, ◌<◌, ◌≡◌, refl, sym, ap, ◌∙◌, subst, arith, Bytes, ◌++◌, length, take, drop,
  length-append, length-drop, drop-drop, take-append, drop-append, replicate,
}
use elfex.Common.Outcome.{ok, u64_mod, add_u64-ok}
use elfex.Ident.Endian.{Endian, word_bytes, u16_bytes, u32_bytes, u64_bytes}
use elfex.Ident.Words.{length-word_bytes, word-word_bytes}
use elfex.Reader.{
  slice_reader, read_exact_at, read_u16_at, read_u32_at, read_u64_at, u32_field, u64_field,
}
use elfex.Reader.Slice.{read_exact_at-slice}

-- The slice goes on with `rest` from `offset`, and is no longer than memory can be.
pub record At (bytes : Bytes) (offset : ℕ) (rest : Bytes) : Type 0 where
  pub from : drop offset bytes ≡ rest
  pub within : offset ≤ length bytes
  pub fits : length bytes < u64_mod

pub At-append :
    (front rest : Bytes) → length (front ++ rest) < u64_mod → At (front ++ rest) (length front) rest
At-append front rest h = record {
  from = drop-append (length front) front rest refl;
  within = omega (arith, length-append front rest);
  fits = h;
}

pub At-eq :
    {bytes : Bytes} {offset : ℕ} {rest : Bytes} (rest' : Bytes)
    → At bytes offset rest
    → rest ≡ rest'
    → At bytes offset rest'
At-eq {bytes} {offset} rest' a e = subst (At bytes offset) e a

-- Behind any bytes that stand there.
pub At-behind :
    (bytes : Bytes) (offset : ℕ) (front rest : Bytes)
    → At bytes offset (front ++ rest)
    → At bytes (offset + length front) rest
At-behind bytes offset front rest a = record {
  from =
      sym (drop-drop offset (length front) bytes)
      ∙ ap (drop (length front)) a.from
      ∙ drop-append (length front) front rest refl;
  within =
      omega (arith, ap length a.from, length-drop offset bytes, length-append front rest, a.within);
  fits = a.fits;
}

module _ (bytes : Bytes) (offset : ℕ) (e : Endian) where
  -- Behind a field of `n` bytes at `offset + k`.
  pub behind :
      (n k k' v : ℕ) (rest : Bytes)
      → At bytes (offset + k) (word_bytes e n v ++ rest)
      → k' ≡ k + n
      → At bytes (offset + k') rest
  behind n k k' v rest a h =
      let len = length-word_bytes e n v in
      record {
        from =
            ap (λ (j : ℕ). drop j bytes) {x = offset + k'} {y = offset + k + n} (omega arith)
            ∙ sym (drop-drop (offset + k) n bytes)
            ∙ ap (drop n) a.from
            ∙ drop-append n (word_bytes e n v) rest len;
        within = omega (
          arith,
          len,
          ap length a.from,
          length-drop (offset + k) bytes,
          length-append (word_bytes e n v) rest,
          a.within,
        );
        fits = a.fits;
      }

  -- Behind a field of `n` bytes at `offset` itself.
  pub behind_first :
      (n v : ℕ) (rest : Bytes)
      → At bytes offset (word_bytes e n v ++ rest)
      → At bytes (offset + n) rest
  behind_first n v rest a =
      behind n 0 n v rest (subst (λ (o : ℕ). At bytes o (word_bytes e n v ++ rest)) (omega arith) a)
        (omega arith)

  exact :
      (n v : ℕ) (rest : Bytes)
      → At bytes offset (word_bytes e n v ++ rest)
      → read_exact_at (slice_reader bytes) offset (replicate n 0) ≡ ok (word_bytes e n v)
  exact n v rest a =
      let len = length-word_bytes e n v in
      read_exact_at-slice bytes offset n
        (omega (
          arith,
          len,
          ap length a.from,
          length-drop offset bytes,
          length-append (word_bytes e n v) rest,
          a.within,
        ))
        a.fits
      ∙ ap ok (ap (take n) a.from ∙ take-append n (word_bytes e n v) rest len)

  pub read_u16 :
      (v : ℕ) (rest : Bytes)
      → v < 0x10000
      → At bytes offset (u16_bytes e v ++ rest)
      → read_u16_at (slice_reader bytes) offset e ≡ ok v
  unfolding read_u16_at
  read_u16 v rest h a = rw (exact 2 v rest a) (ap ok (word-word_bytes e 2 v h))

  pub read_u32 :
      (v : ℕ) (rest : Bytes)
      → v < 0x100000000
      → At bytes offset (u32_bytes e v ++ rest)
      → read_u32_at (slice_reader bytes) offset e ≡ ok v
  unfolding read_u32_at
  read_u32 v rest h a = rw (exact 4 v rest a) (ap ok (word-word_bytes e 4 v h))

  pub read_u64 :
      (v : ℕ) (rest : Bytes)
      → v < u64_mod
      → At bytes offset (u64_bytes e v ++ rest)
      → read_u64_at (slice_reader bytes) offset e ≡ ok v
  unfolding read_u64_at
  read_u64 v rest h a = rw (exact 8 v rest a) (ap ok (word-word_bytes e 8 v h))

pub u32_field-At :
    (bytes : Bytes) (offset : ℕ) (e : Endian) (k v : ℕ) (rest : Bytes)
    → v < 0x100000000
    → At bytes (offset + k) (u32_bytes e v ++ rest)
    → u32_field (slice_reader bytes) offset k e ≡ ok v
unfolding u32_field
u32_field-At bytes offset e k v rest h a =
    rw (add_u64-ok offset k (omega (arith, a.within, a.fits)))
      (read_u32 bytes (offset + k) e v rest h a)

pub u64_field-At :
    (bytes : Bytes) (offset : ℕ) (e : Endian) (k v : ℕ) (rest : Bytes)
    → v < u64_mod
    → At bytes (offset + k) (u64_bytes e v ++ rest)
    → u64_field (slice_reader bytes) offset k e ≡ ok v
unfolding u64_field
u64_field-At bytes offset e k v rest h a =
    rw (add_u64-ok offset k (omega (arith, a.within, a.fits)))
      (read_u64 bytes (offset + k) e v rest h a)
