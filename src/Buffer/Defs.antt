-- ===== src/Buffer/Defs.antt =====
-- nfsv4/buffer.h: growable buffers with a start and an end offset. `bytes` is a 32-bit word, so
-- sums of offsets wrap. The `heap` of a buffer gives what a fresh block of each size holds.
use Prim.Native.Nat.{max}
use ssqlite.Prelude.{ℕ, ◌+◌, ◌-◌, ◌*◌, ◌%◌, ◌^◌, List, [], ◌∷◌, ltb, if◌then◌else◌, length}
use ssqlite.Prelude.Memory.{Block, slice, memcpy}

abbrev pub Heap : Type 0
Heap = ℕ → Block

pub record Buffer : Type 0 where
  pub h : Heap
  pub start : ℕ
  pub end : ℕ
  pub capacity : ℕ
  pub contents : Block

-- `u32` arithmetic
abbrev pub u32 : ℕ → ℕ
u32 n = n % 2 ^ 32

-- The wrapping difference of two 32-bit words.
abbrev pub sub32 : ℕ → ℕ → ℕ
sub32 a b = (a + 2 ^ 32 - b) % 2 ^ 32

-- `length(b)`; the library's name goes to lists.
unfoldable pub buffer_length : Buffer → ℕ
buffer_length b = sub32 b.end b.start

-- The live bytes, from `start` up to `end`.
abbrev pub bytes : Buffer → List ℕ
bytes b = slice b.contents b.start (b.end - b.start)

unfoldable pub allocate_buffer : Heap → ℕ → Buffer
allocate_buffer h capacity = record {
  h = h;
  start = 0;
  end = 0;
  capacity = capacity;
  contents = h capacity;
}

-- A fresh block receives the first `length(b)` bytes of the old one.
unfoldable pub grown : Buffer → ℕ → Buffer
unfolding buffer_length
grown b capacity = record b {
  capacity = capacity;
  contents = memcpy (b.h capacity) 0 (slice b.contents 0 (buffer_length b));
  end = sub32 b.end b.start;
  start = 0;
}

unfoldable pub buffer_extend : Buffer → ℕ → Buffer
unfolding grown
buffer_extend b len =
    if ltb b.capacity (u32 (b.end + len))
    then grown b (max (u32 (2 * b.capacity)) (u32 (b.capacity + len)))
    else b

-- `memcpy(b->contents + b->end, xs, len); b->end += len`
unfoldable pub append_bytes : Buffer → List ℕ → Buffer
append_bytes b xs = record b {
  contents = memcpy b.contents b.end xs;
  end = u32 (b.end + length xs);
}

unfoldable pub push_bytes : Buffer → List ℕ → Buffer
push_bytes b xs = append_bytes (buffer_extend b (length xs)) xs

unfoldable pub push_char : Buffer → ℕ → Buffer
push_char b x = append_bytes (buffer_extend b 1) ((x % 256) ∷ [])

unfoldable pub buffer_concat : Buffer → Buffer → Buffer
buffer_concat dest source =
    let len = buffer_length source in
    append_bytes (buffer_extend dest len) (slice source.contents source.start len)
