-- ===== src/Xdr/Decode.antt =====
-- nfsv4/nfs4_internal.h: the readers against the XDR form of what lies ahead.
use mathlib.Core.Path.{ap₂}
use ssqlite.Prelude.{
  ℕ, ◌+◌, ◌-◌, ◌%◌, ◌^◌, ◌≤◌, ◌<◌, ◌≡◌, ap, ◌∙◌, true, false, List, ◌++◌, arith, none, some, length,
  length-append, ◌/◌, ltb, lt→ltb, ltb-false,
}
use ssqlite.Prelude.Memory.{slice, slice_split, length-slice}
use ssqlite.Buffer.{Buffer, bytes, sub32, buffer_length}
use ssqlite.Buffer.Growth.{IsValid}
use ssqlite.Xdr.Words.{be32, be64, big_endian, ntohl_at, skip, read_beu32, read_beu64, read_buffer}
use ssqlite.Xdr.Encode.{length-be32, length-be64}

-- A buffer in order whose unread bytes are `xs`.
pub record Ahead (b : Buffer) (xs : List ℕ) : Type 0 where
  pub valid : IsValid b
  pub live : bytes b ≡ xs

skip-IsValid : (b : Buffer) (n : ℕ) → IsValid b → n ≤ b.end - b.start → IsValid (skip b n)
unfolding skip
skip-IsValid b n v h = record {
  ordered = omega (arith, v.ordered, v.within, v.small);
  within = v.within;
  small = v.small;
}

-- Taking `xs` off the front leaves the rest ahead.
pub skip-Ahead :
    (b : Buffer) (xs rest : List ℕ)
    → Ahead b (xs ++ rest)
    → Ahead (skip b (length xs)) rest
      × (slice b.contents b.start (length xs) ≡ xs)
      × (length xs ≤ b.end - b.start)
unfolding skip
skip-Ahead b xs rest a =
    let (front, back, size) = slice_split b.contents b.start (b.end - b.start) xs rest a.live in
    (
      record {
        valid = skip-IsValid b (length xs) a.valid (omega (arith, size));
        live = place size ∙ back;
      },
      front,
      omega (arith, size),
    )
  where
    place :
        b.end - b.start ≡ length xs + length rest
        → slice b.contents ((b.start + length xs) % 2 ^ 32) (b.end - (b.start + length xs) % 2 ^ 32)
          ≡ slice b.contents (b.start + length xs) (b.end - b.start - length xs)
    place size =
        ap₂ (slice b.contents) (omega (arith, a.valid.ordered, a.valid.within, a.valid.small))
          (omega (arith, a.valid.ordered, a.valid.within, a.valid.small))

pub big_endian-be32 : (w : ℕ) → w < 2 ^ 32 → big_endian 0 (be32 w) ≡ w
unfolding big_endian be32
big_endian-be32 w h = omega arith

ntohl_at-be32 :
    (b : Buffer) (i w : ℕ) → w < 2 ^ 32 → slice b.contents i 4 ≡ be32 w → ntohl_at b i ≡ w
unfolding ntohl_at
ntohl_at-be32 b i w h e = ap (big_endian 0) e ∙ big_endian-be32 w h

-- The wrapping length of a buffer that is in order is the number of its bytes.
length-Ahead : (b : Buffer) (xs : List ℕ) → Ahead b xs → sub32 b.end b.start ≡ length xs
length-Ahead b xs a = omega (
  arith,
  ap length a.live,
  length-slice b.contents b.start (b.end - b.start),
  a.valid.ordered,
  a.valid.within,
  a.valid.small,
)

-- `read_beu32` on a buffer in order whose next bytes are the four that `push_be32` writes for a
-- word below 2 ^ 32 returns that word, and the buffer after it has what follows ahead.
pub read_beu32-be32 :
    (b : Buffer) (w : ℕ) (rest : List ℕ)
    → w < 2 ^ 32
    → Ahead b (be32 w ++ rest)
    → (read_beu32 b ≡ some (w, skip b 4)) × Ahead (skip b 4) rest
unfolding read_beu32
read_beu32-be32 b w rest h a =
    let (after, front, enough) = skip-Ahead b (be32 w) rest a in
    (
      rw enough_test
          (ap (λ v. some (v, skip b 4)) (ntohl_at-be32 b b.start w h (unfold be32 in front))),
      unfold be32 in after,
    )
  where
    enough_test : ltb (sub32 b.end b.start) 4 ≡ false
    enough_test =
        ltb-false _ _
          (omega (arith, length-Ahead b _ a, length-append (be32 w) rest, length-be32 w))

-- `read_beu64` on a buffer in order whose next bytes are the eight that `push_be64` writes for a number
-- below 2 ^ 64 returns that number, and the buffer after it has what follows ahead.
pub read_beu64-be64 :
    (b : Buffer) (w : ℕ) (rest : List ℕ)
    → w < 2 ^ 64
    → Ahead b (be64 w ++ rest)
    → (read_beu64 b ≡ some (w, skip b 8)) × Ahead (skip b 8) rest
unfolding read_beu64
read_beu64-be64 b w rest h a =
    let (after, front, enough) = skip-Ahead b (be64 w) rest a in
    let (high, low, size) =
      slice_split b.contents b.start 8 (be32 (w / 2 ^ 32)) (be32 (w % 2 ^ 32))
        (unfold be64 be32 in front) in
    (
      rw enough_test (
          ap (λ v. some (v, skip b 8))
            (omega (
              arith,
              ntohl_at-be32 b b.start (w / 2 ^ 32) (omega arith) (unfold be32 in high),
              ntohl_at-be32 b (b.start + 4) (w % 2 ^ 32) (omega arith) (unfold be32 in low),
            ))),
      unfold be64 be32 in after,
    )
  where
    enough_test : ltb (sub32 b.end b.start) 8 ≡ false
    enough_test =
        ltb-false _ _
          (omega (arith, length-Ahead b _ a, length-append (be64 w) rest, length-be64 w))

-- `read_buffer` of as many bytes as `xs` has, on a buffer with `xs` and more ahead, returns `xs`,
-- and the buffer after it has the rest ahead.
pub read_buffer-append :
    (b : Buffer) (xs rest : List ℕ)
    → Ahead b (xs ++ rest)
    → (read_buffer b (length xs) ≡ some (xs, skip b (length xs))) × Ahead (skip b (length xs)) rest
unfolding read_buffer buffer_length
read_buffer-append b xs rest a =
    let (after, front, enough) = skip-Ahead b xs rest a in
    (rw enough_test (ap (λ v. some (v, skip b (length xs))) front), after)
  where
    enough_test : ltb (sub32 b.end b.start) (length xs) ≡ false
    enough_test = ltb-false _ _ (omega (arith, length-Ahead b _ a, length-append xs rest))

-- With fewer than four bytes ahead `read_beu32`, `read_beu64` and a `read_buffer` of four bytes or
-- more all refuse.
pub readers_short :
    (b : Buffer) (xs : List ℕ) (len : ℕ)
    → Ahead b xs
    → length xs < 4
    → 4 ≤ len
    → (read_beu32 b ≡ none) × (read_beu64 b ≡ none) × (read_buffer b len ≡ none)
unfolding read_beu32 read_beu64 read_buffer buffer_length
readers_short b xs len a h k =
    (rw (short 4 (omega arith)), rw (short 8 (omega arith)), rw (short len (omega arith)))
  where
    short : (n : ℕ) → length xs < n → ltb (sub32 b.end b.start) n ≡ true
    short n h = lt→ltb _ _ (omega (arith, length-Ahead b xs a))
