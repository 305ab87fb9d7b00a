-- ===== src/Xdr/Words.antt =====
-- nfsv4/nfs4_internal.h, nfsv4/xdr.c and nfsv4/buffer.h: the primitive writers and readers of the
-- wire format. A reader is `none` where the source returns the status "out of data".
use ssqlite.Prelude.{
  ℕ, ◌+◌, ◌*◌, ◌/◌, ◌%◌, ◌^◌, Bool, List, [], ◌∷◌, ◌++◌, Option, none, some, ltb, ◌==◌,
  if◌then◌else◌, length, replicate,
}
use ssqlite.Prelude.Memory.{slice}
use ssqlite.Buffer.{Buffer, u32, sub32, buffer_length, buffer_extend, append_bytes}

-- The four bytes that `htonl(w)` leaves in memory.
unfoldable pub be32 : ℕ → List ℕ
be32 w = (w / 2 ^ 24 % 256) ∷ (w / 2 ^ 16 % 256) ∷ (w / 2 ^ 8 % 256) ∷ (w % 256) ∷ []

unfoldable pub be64 : ℕ → List ℕ
be64 w = be32 (w / 2 ^ 32) ++ be32 (w % 2 ^ 32)

-- The number that bytes make, the first being the highest.
unfoldable pub big_endian : ℕ → List ℕ → ℕ
big_endian acc [] = acc
big_endian acc (x ∷ xs) = big_endian (acc * 256 + x) xs

-- `ntohl` of the four bytes at an offset
unfoldable pub ntohl_at : Buffer → ℕ → ℕ
ntohl_at b i = big_endian 0 (slice b.contents i 4)

unfoldable pub pad : ℕ → ℕ → ℕ
pad a to = u32 ((sub32 a 1 / to + 1) * to)

unfoldable pub push_be32 : Buffer → ℕ → Buffer
push_be32 b w = append_bytes (buffer_extend b 4) (be32 w)

unfoldable pub push_be64 : Buffer → ℕ → Buffer
push_be64 b w = append_bytes (buffer_extend b 8) (be64 w)

unfoldable pub push_boolean : Buffer → Bool → Buffer
push_boolean b x = append_bytes (buffer_extend b 4) (if x then be32 1 else be32 0)

-- The zero bytes behind a string.
unfoldable pub push_padding : Buffer → ℕ → Buffer
push_padding b plen = if plen == 0 then b else append_bytes b (replicate plen 0)

unfoldable pub push_string : Buffer → List ℕ → Buffer
push_string b x =
    let plen = sub32 (pad (length x) 4) (length x) in
    let b' = push_be32 (buffer_extend b (u32 (length x + plen + 4))) (length x) in
    push_padding (append_bytes b' x) plen

unfoldable pub push_fixed_string : Buffer → List ℕ → Buffer
push_fixed_string b x =
    let plen = sub32 (pad (length x) 4) (length x) in
    push_padding (append_bytes (buffer_extend b (u32 (length x + plen + 4))) x) plen

-- `b->start += n`, with no check
unfoldable pub skip : Buffer → ℕ → Buffer
skip b n = record b { start = u32 (b.start + n) }

unfoldable pub read_beu32 : Buffer → Option (ℕ × Buffer)
read_beu32 b = if ltb (sub32 b.end b.start) 4 then none else some (ntohl_at b b.start, skip b 4)

-- `v << 32 | v2`: the halves share no bit.
unfoldable pub read_beu64 : Buffer → Option (ℕ × Buffer)
read_beu64 b =
    if ltb (sub32 b.end b.start) 8
    then none
    else some (ntohl_at b b.start * 2 ^ 32 + ntohl_at b (b.start + 4), skip b 8)

unfoldable pub read_buffer : Buffer → ℕ → Option (List ℕ × Buffer)
read_buffer b len =
    if ltb (buffer_length b) len then none else some (slice b.contents b.start len, skip b len)
