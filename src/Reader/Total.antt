-- ===== src/Reader/Total.antt =====
-- `read_exact_at` on any source that answers: it ends, and returns what the source delivered.
use elfex.Common.{
  ℕ, zero, suc, ◌+◌, ◌-◌, ◌≤◌, ◌<◌, ◌≡◌, ◌≢◌, refl, sym, ap, ◌∙◌, subst, arith, Bytes, List, [],
  ◌∷◌, ◌++◌, append-nil, append_assoc, take-all, ltb, ge→ltb, ◌==◌, length, take, drop,
  length-append, length-take, length-drop, Bool-cases, Option-cases, inl, inr, ◌⊎◌, some, none, min,
}
use elfex.Common.Outcome.{
  Outcome, ok, err, panic, stuck, ◌>>=◌, ◌>>◌, reject_if, checked_add, u64_mod, buffer_too_small,
  generic,
}
use elfex.Common.Slices.{get_from}
use elfex.Reader.{ReadAt, read_exact_loop, read_exact_at, slice_read_at, slice_reader}

-- What every implementation of the trait does: it returns, and it writes into the buffer that it
-- is lent, whose length stays.
pub record Answers (reader : ReadAt) : Type 0 where
  pub returns : (offset : ℕ) (buf : Bytes) → (reader.read_at offset buf).1 ≢ stuck
  pub keeps : (offset : ℕ) (buf : Bytes) → length (reader.read_at offset buf).0 ≡ length buf

-- A read in a run of them: the buffer that was lent, and the count that was answered.
pub record Piece : Type 0 where
  pub buf : Bytes
  pub count : ℕ

-- The reads follow one another: each is at the offset behind the bytes of the one before it, below
-- 2^64, and answers with a count above zero that its buffer has room for.
abbrev pub Follow : ReadAt → ℕ → List Piece → Type 0
Follow reader offset [] = Unit {0}
Follow reader offset (p ∷ ps) =
    (offset < u64_mod)
    × ((reader.read_at offset p.buf).1 ≡ ok p.count)
    × (0 < p.count)
    × (p.count ≤ length p.buf)
    × Follow reader (offset + p.count) ps

-- The bytes that the reads put at the front of their buffers, joined.
abbrev pub delivered : ReadAt → ℕ → List Piece → Bytes
delivered reader offset [] = []
delivered reader offset (p ∷ ps) =
    take p.count (reader.read_at offset p.buf).0 ++ delivered reader (offset + p.count) ps

-- The bytes are a head and what reads from an offset on delivered.
pub record Delivered (reader : ReadAt) (offset : ℕ) (head bytes : Bytes) : Type 0 where
  pub pieces : List Piece
  pub follow : Follow reader offset pieces
  pub joined : bytes ≡ head ++ delivered reader offset pieces

-- The loop has ended, and a result has `n` bytes, a head and then what the source delivered.
abbrev pub Fills : ReadAt → ℕ → ℕ → Bytes → Outcome Bytes → Type 0
Fills reader offset n head (ok bytes) = (length bytes ≡ n) × Delivered reader offset head bytes
Fills reader offset n head (err e) = Unit
Fills reader offset n head panic = Unit
Fills reader offset n head stuck = ⊥

-- The rest of a round, behind its read.
abbrev pub after_read : ReadAt → ℕ → ℕ → ℕ → ℕ → Bytes → Bytes → Outcome ℕ → Outcome Bytes
after_read reader offset expected fuel total buf filled answer = do
  count ← answer
  reject_if (count == 0) (buffer_too_small expected total)
  reject_if (ltb (expected - total) count)
      (generic "ReadAt::read_at reported more bytes than the supplied buffer")
  read_exact_loop reader offset expected fuel (total + count) (take total buf ++ filled)

-- A piece in front of what was delivered.
Fills-piece :
    (reader : ReadAt) (offset n : ℕ) (head : Bytes) (p : Piece) (m : Outcome Bytes)
    → offset < u64_mod
    → (reader.read_at offset p.buf).1 ≡ ok p.count
    → 0 < p.count
    → p.count ≤ length p.buf
    → Fills reader (offset + p.count) n (head ++ take p.count (reader.read_at offset p.buf).0) m
    → Fills reader offset n head m
Fills-piece reader offset n head p (ok bytes) low answer some' room (size, d) = (
  size,
  record {
    pieces = p ∷ d.pieces;
    follow = (low, answer, some', room, d.follow);
    joined =
        d.joined
        ∙ append_assoc head (take p.count (reader.read_at offset p.buf).0)
            (delivered reader (offset + p.count) d.pieces);
  },
)
Fills-piece reader offset n head p (err e) low answer some' room h = tt
Fills-piece reader offset n head p panic low answer some' room h = tt
Fills-piece reader offset n head p stuck low answer some' room h = h

-- The front of a buffer whose first `total` bytes stayed and whose rest was read into.
take-filled :
    (k total count : ℕ) (buf filled : Bytes)
    → k ≡ total + count
    → total ≤ length buf
    → take k (take total buf ++ filled) ≡ take total buf ++ take count filled
take-filled k zero count buf filled e h = ap (λ (n : ℕ). take n filled) (omega arith)
take-filled zero (suc total) count buf filled e h = absurd (omega arith)
take-filled (suc k) (suc total) count [] filled e h = absurd (omega arith)
take-filled (suc k) (suc total) count (b ∷ buf) filled e h =
    ap (◌∷◌ b) (take-filled k total count buf filled (omega arith) (omega arith))

checked_add-cases :
    (a b : ℕ) → (checked_add a b ≡ none) ⊎ ((a + b < u64_mod) × (checked_add a b ≡ some (a + b)))
unfolding checked_add
checked_add-cases a b = elim (Bool-cases (ltb (a + b) u64_mod)) [
  | inl low ↦ inr (ground (arith, low), rw low refl)
  | inr high ↦ inl (rw high refl)
]

module _ (reader : ReadAt) (offset expected : ℕ) where
  -- The claim at one amount of fuel.
  abbrev LoopFills : ℕ → Type 0
  LoopFills fuel =
      (total : ℕ) (buf : Bytes)
      → length buf ≡ expected
      → total ≤ expected
      → expected ≤ fuel + total
      → Fills reader (offset + total) expected (take total buf)
          (read_exact_loop reader offset expected fuel total buf)

  done-Fills :
      (total : ℕ) (buf : Bytes)
      → length buf ≡ expected
      → expected ≤ total
      → Fills reader (offset + total) expected (take total buf) (ok buf)
  done-Fills total buf e h = (
    e,
    record {
      pieces = [];
      follow = tt;
      joined = sym (append-nil (take total buf) ∙ take-all total buf (omega arith));
    },
  )

  after_read-Fills :
      (fuel total : ℕ) (buf : Bytes) (answer : Outcome ℕ)
      → Answers reader
      → LoopFills fuel
      → length buf ≡ expected
      → total < expected
      → expected ≤ suc fuel + total
      → offset + total < u64_mod
      → (reader.read_at (offset + total) (drop total buf)).1 ≡ answer
      → Fills reader (offset + total) expected (take total buf) (
          after_read reader offset expected fuel total buf
            (reader.read_at (offset + total) (drop total buf)).0
            answer)
  after_read-Fills fuel total buf (ok count) a ih e t h low s =
      let rest = drop total buf in
      let filled = (reader.read_at (offset + total) rest).0 in
      let room : length rest ≡ length buf - total = length-drop total buf in
      let kept : length filled ≡ length rest = a.keeps (offset + total) rest in
      let size : length (take total buf ++ filled) ≡ expected =
        omega (arith, length-append (take total buf) filled, length-take total buf) in
      elim (Bool-cases (count == 0)) [
        | inl none' ↦ rw none' tt
        | inr more ↦ elim (Bool-cases (ltb (expected - total) count)) [
          | inl over ↦ rw (more, over) tt
          | inr within ↦
              let above : 0 < count = ground (arith, more) in
              let below : count ≤ expected - total = ground (arith, within) in
              let next =
                ih (total + count) (take total buf ++ filled) size (omega arith) (omega arith) in
              let after = take total buf ++ filled in
              let loop = read_exact_loop reader offset expected fuel (total + count) after in
              let front = take-filled (total + count) total count buf filled refl (omega arith) in
              let place : offset + (total + count) ≡ offset + total + count = omega arith in
              let next' =
                subst
                  (λ (o : ℕ). Fills reader o expected (take total buf ++ take count filled) loop)
                  place
                  (subst
                    (λ (head : Bytes). Fills reader (offset + (total + count)) expected head loop)
                    front next) in
              rw (more, within)
                (Fills-piece reader (offset + total) expected (take total buf)
                  (record { buf = rest; count = count }) _ low s above (omega arith) next')
        ]
      ]
  after_read-Fills fuel total buf (err x) a ih e t h low s = tt
  after_read-Fills fuel total buf panic a ih e t h low s = tt
  after_read-Fills fuel total buf stuck a ih e t h low s =
      a.returns (offset + total) (drop total buf) s

  loop-Fills : Answers reader → (fuel : ℕ) → LoopFills fuel
  unfolding read_exact_loop
  loop-Fills a zero total buf e t h =
      rw (ge→ltb total expected (omega arith)) (done-Fills total buf e (omega arith))
  loop-Fills a (suc fuel) total buf e t h = elim (Bool-cases (ltb total expected)) [
    | inr done ↦ rw (done, read_exact_loop) (done-Fills total buf e (ground (arith, done)))
    | inl more ↦ elim (checked_add-cases offset total) [
      | inl over ↦ rw (more, over, read_exact_loop) tt
      | inr (low, at) ↦
          rw (more, at, read_exact_loop)
            (after_read-Fills fuel total buf (reader.read_at (offset + total) (drop total buf)).1 a
              (loop-Fills a fuel) e (ground (arith, more)) h low refl)
    ]
  ]

-- An exact read of any source that answers, and keeps the length of the buffer it is lent, never
-- runs out of fuel, and a read that succeeds has filled the buffer: it returns as many bytes as the
-- buffer has, and they are what reads of the source delivered, the first at the offset asked for,
-- and each other one behind the bytes of the one before it.
pub read_exact_at-Fills :
    (reader : ReadAt) (offset : ℕ) (buf : Bytes)
    → Answers reader
    → Fills reader offset (length buf) [] (read_exact_at reader offset buf)
unfolding read_exact_at
read_exact_at-Fills reader offset buf a =
    subst
      (λ (o : ℕ).
        Fills reader o (length buf) []
          (read_exact_loop reader offset (length buf) (length buf) 0 buf))
      (omega arith)
      (loop-Fills reader offset (length buf) a (length buf) 0 buf refl (omega arith) (omega arith))

slice-length :
    (bytes : Bytes) (offset : ℕ) (buf : Bytes)
    → length (slice_read_at bytes offset buf).0 ≡ length buf
unfolding slice_read_at
slice-length bytes offset buf = elim (Option-cases (get_from bytes offset)) [
  | inl none_e ↦ rw (none_e, slice_read_at) refl
  | inr (available, some_e) ↦
      let count = min (length available) (length buf) in
      rw (some_e, slice_read_at)
        (omega (
          arith,
          length-append (take count available) (drop count buf),
          length-take count available,
          length-drop count buf,
        ))
]

slice-returns :
    (bytes : Bytes) (offset : ℕ) (buf : Bytes) → (slice_read_at bytes offset buf).1 ≢ stuck
unfolding slice_read_at
slice-returns bytes offset buf h = elim (Option-cases (get_from bytes offset)) [
  | inl none_e ↦ cc
  | inr (available, some_e) ↦ cc
]

-- A slice is such a source.
pub slice_reader-Answers : (bytes : Bytes) → Answers (slice_reader bytes)
slice_reader-Answers bytes = record { returns = slice-returns bytes; keeps = slice-length bytes }
