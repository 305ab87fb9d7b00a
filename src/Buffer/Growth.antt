-- ===== src/Buffer/Growth.antt =====
-- nfsv4/buffer.h: the bytes of a buffer before and after an extension and a push.
use mathlib.Core.Path.{ap₂}
use ssqlite.Prelude.{
  ℕ, ◌+◌, ◌-◌, ◌^◌, ◌%◌, ◌≤◌, ◌<◌, ◌≡◌, refl, ap, ◌∙◌, sym, List, [], ◌∷◌, ◌++◌, arith, length, ltb,
  inl, inr, length-append, Bool-cases, lt→ltb,
}
use ssqlite.Prelude.Memory.{
  Block, slice, memcpy, slice-memcpy, slice-memcpy_self, slice-add, length-slice,
}
use ssqlite.Buffer.Defs.{
  Buffer, bytes, buffer_length, buffer_extend, append_bytes, push_bytes, push_char, buffer_concat,
  grown, sub32, Heap, allocate_buffer,
}

pub record IsValid (b : Buffer) : Type 0 where
  pub ordered : b.start ≤ b.end
  pub within : b.end ≤ b.capacity
  pub small : b.capacity ≤ 2 ^ 31

-- The largest end that the theorems speak of.
abbrev pub limit : ℕ
limit = 2 ^ 30

pub buffer_extend-IsValid :
    (b : Buffer) (len : ℕ) → IsValid b → b.end + len ≤ limit → IsValid (buffer_extend b len)
unfolding buffer_extend
buffer_extend-IsValid b len v h = ground arith

pub buffer_extend_room :
    (b : Buffer) (len : ℕ)
    → IsValid b
    → b.end + len ≤ limit
    → (buffer_extend b len).end + len ≤ (buffer_extend b len).capacity
unfolding buffer_extend
buffer_extend_room b len v h = ground arith

slice_copy : (m c : Block) (n : ℕ) → slice (memcpy m 0 (slice c 0 n)) 0 n ≡ slice c 0 n
slice_copy m c n =
    ap (slice (memcpy m 0 (slice c 0 n)) 0) (sym (length-slice c 0 n))
    ∙ slice-memcpy_self m 0 (slice c 0 n)

bytes-grown :
    (b : Buffer) (cap : ℕ)
    → b.start ≤ b.end
    → b.end ≤ limit
    → bytes (grown b cap) ≡ slice b.contents 0 (b.end - b.start)
unfolding grown buffer_length
bytes-grown b cap o k =
    ap₂ (λ (n i : ℕ). slice (memcpy (b.h cap) 0 (slice b.contents 0 n)) 0 i) (omega arith)
      (omega arith)
    ∙ slice_copy (b.h cap) b.contents (b.end - b.start)

-- Where `buffer_extend` has to grow a buffer, up to an end of at most 2 ^ 30, the bytes between
-- start and end are afterwards the first bytes of the old block, as many as lay between start and
-- end, and not those from `start` on.
pub buffer_extend_grows :
    (b : Buffer) (len : ℕ)
    → b.start ≤ b.end
    → b.capacity < b.end + len
    → b.end + len ≤ limit
    → bytes (buffer_extend b len) ≡ slice b.contents 0 (b.end - b.start)
unfolding buffer_extend buffer_length
buffer_extend_grows b len o h k =
    rw (lt→ltb b.capacity ((b.end + len) % 2 ^ 32) (omega arith)) (bytes-grown b _ o (omega arith))

pub buffer_extend_keeps :
    (b : Buffer) (len : ℕ)
    → b.end + len ≤ b.capacity
    → b.end + len ≤ limit
    → buffer_extend b len ≡ b
unfolding buffer_extend
buffer_extend_keeps b len h k = ground arith

pub bytes-append_bytes :
    (b : Buffer) (xs : List ℕ)
    → b.start ≤ b.end
    → b.end + length xs ≤ limit
    → bytes (append_bytes b xs) ≡ bytes b ++ xs
unfolding append_bytes
bytes-append_bytes b xs o k =
    ap (slice (memcpy b.contents b.end xs) b.start) size
    ∙ slice-add (memcpy b.contents b.end xs) b.start (b.end - b.start) (length xs)
    ∙ ap₂ ◌++◌ (slice-memcpy b.contents b.end xs b.start (b.end - b.start) (inr (omega arith))) (
        ap (λ (i : ℕ). slice (memcpy b.contents b.end xs) i (length xs)) back
        ∙ slice-memcpy_self b.contents b.end xs)
  where
    size : (b.end + length xs) % 2 ^ 32 - b.start ≡ b.end - b.start + length xs
    size = omega arith

    back : b.start + (b.end - b.start) ≡ b.end
    back = omega arith

-- A buffer that starts at 0 keeps its bytes when it is extended.
pub bytes-buffer_extend :
    (b : Buffer) (len : ℕ)
    → IsValid b
    → b.start ≡ 0
    → b.end + len ≤ limit
    → (bytes (buffer_extend b len) ≡ bytes b)
      × ((buffer_extend b len).start ≡ 0)
      × ((buffer_extend b len).end ≡ b.end)
unfolding buffer_extend
bytes-buffer_extend b len v z k = elim (Bool-cases (ltb b.capacity ((b.end + len) % 2 ^ 32))) [
  | inl e ↦ rw e (
    bytes-grown b _ v.ordered (omega arith)
        ∙ ap (λ (i : ℕ). slice b.contents i (b.end - b.start)) (sym z),
    refl,
    omega arith,
  )
  | inr e ↦ rw e (refl, z, refl)
]

-- `b` holds exactly the bytes `xs`, from offset 0 on.
pub record Holds (b : Buffer) (xs : List ℕ) : Type 0 where
  pub valid : IsValid b
  pub origin : b.start ≡ 0
  pub size : b.end ≡ length xs
  pub live : bytes b ≡ xs

-- `buffer_extend` by `len` on a buffer that holds `xs` from offset 0 on leaves one that holds `xs`
-- and has room for `len` bytes behind its end, as long as `xs` and `len` are at most 2 ^ 30
-- together.
pub buffer_extend-Holds :
    (b : Buffer) (xs : List ℕ) (len : ℕ)
    → Holds b xs
    → length xs + len ≤ limit
    → Holds (buffer_extend b len) xs
      × ((buffer_extend b len).end + len ≤ (buffer_extend b len).capacity)
buffer_extend-Holds b xs len v k =
    let (same, start, end) = bytes-buffer_extend b len v.valid v.origin fits in
    (
      record {
        valid = buffer_extend-IsValid b len v.valid fits;
        origin = start;
        size = end ∙ v.size;
        live = same ∙ v.live;
      },
      buffer_extend_room b len v.valid fits,
    )
  where
    fits : b.end + len ≤ limit
    fits = omega (arith, v.size)

pub append_bytes-Holds :
    (b : Buffer) (xs ys : List ℕ)
    → Holds b xs
    → length xs + length ys ≤ limit
    → b.end + length ys ≤ b.capacity
    → Holds (append_bytes b ys) (xs ++ ys)
append_bytes-Holds b xs ys v k r = record {
  valid =
      unfold append_bytes in
      record {
        ordered = omega (arith, v.valid.ordered, v.size);
        within = omega (arith, v.size);
        small = v.valid.small;
      };
  origin = unfold append_bytes in v.origin;
  size = unfold append_bytes in omega (arith, v.size, length-append xs ys);
  live = bytes-append_bytes b ys v.valid.ordered (omega (arith, v.size)) ∙ ap (λ t. t ++ ys) v.live;
}

-- `push_bytes` on a buffer that holds `xs` from offset 0 on leaves one that holds `xs` followed by
-- the bytes pushed, whether or not it has to grow, as long as the two have at most 2 ^ 30 bytes
-- together.
pub push_bytes-Holds :
    (b : Buffer) (xs ys : List ℕ)
    → Holds b xs
    → length xs + length ys ≤ limit
    → Holds (push_bytes b ys) (xs ++ ys)
unfolding push_bytes
push_bytes-Holds b xs ys v k =
    let (held, room) = buffer_extend-Holds b xs (length ys) v k in
    append_bytes-Holds (buffer_extend b (length ys)) xs ys held k room

pub push_char-Holds :
    (b : Buffer) (xs : List ℕ) (x : ℕ)
    → Holds b xs
    → length xs + 1 ≤ limit
    → Holds (push_char b x) (xs ++ ((x % 256) ∷ []))
unfolding push_char
push_char-Holds b xs x v k =
    let (held, room) = buffer_extend-Holds b xs 1 v k in
    append_bytes-Holds (buffer_extend b 1) xs ((x % 256) ∷ []) held k room

-- `buffer_concat` of two buffers that hold their bytes from offset 0 on leaves the first holding
-- the bytes of both, as long as they have at most 2 ^ 30 bytes together.
pub buffer_concat-Holds :
    (b s : Buffer) (xs ys : List ℕ)
    → Holds b xs
    → Holds s ys
    → length xs + length ys ≤ limit
    → Holds (buffer_concat b s) (xs ++ ys)
unfolding buffer_concat buffer_length
buffer_concat-Holds b s xs ys v w k =
    let (held, room) = buffer_extend-Holds b xs len v (omega (arith, size)) in
    rw held_bytes
      (append_bytes-Holds (buffer_extend b len) xs ys held k (omega (arith, room, size)))
  where
    len : ℕ
    len = sub32 s.end s.start

    size : len ≡ length ys
    size = omega (arith, w.size, w.origin)

    held_bytes : slice s.contents s.start len ≡ ys
    held_bytes = ap (slice s.contents s.start) (omega (arith, w.size, w.origin)) ∙ w.live

pub allocate_buffer-Holds : (h : Heap) (n : ℕ) → n ≤ 2 ^ 31 → Holds (allocate_buffer h n) []
unfolding allocate_buffer
allocate_buffer-Holds h n k = record {
  valid = omega arith;
  origin = refl;
  size = refl;
  live = refl;
}
