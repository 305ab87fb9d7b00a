-- ===== src/Rpc/Finish.antt =====
-- nfsv4/rpc.c, `rpc_send`: the two words that are filled in when a request goes out.
use ssqlite.Prelude.{ℕ, ◌+◌, ◌-◌, ◌^◌, ◌≤◌, ◌≡◌, ap, ◌∙◌, inl, inr, List, arith, length}
use ssqlite.Prelude.Memory.{Block, slice, memcpy, slice-memcpy, slice-memcpy_self}
use ssqlite.Buffer.{u32, buffer_length}
use ssqlite.Buffer.Growth.{Holds, limit}
use ssqlite.Xdr.Words.{be32}
use ssqlite.Xdr.Encode.{length-be32}
use ssqlite.Rpc.Request.{finish}
use ssqlite.Rpc.Image.{get_buffer-set_buffer}
use ssqlite.System.{Rpc, rpc_buffer}

-- The record mark of RFC 5531 of a last fragment with `n` bytes.
abbrev pub record_mark : ℕ → List ℕ
record_mark n = be32 (2 ^ 31 + n)

abbrev filled : Block → ℕ → ℕ → ℕ → Block
filled m i w v = memcpy (memcpy m i (be32 w)) 0 (be32 v)

filled-slices :
    (m : Block) (i w v k : ℕ)
    → 4 ≤ i
    → (slice (filled m i w v) 0 4 ≡ be32 v)
      × (slice (filled m i w v) i 4 ≡ be32 w)
      × (slice (filled m i w v) 4 (i - 4) ≡ slice m 4 (i - 4))
      × (slice (filled m i w v) (i + 4) k ≡ slice m (i + 4) k)
filled-slices m i w v k low = (
  unfold be32 in slice-memcpy_self (memcpy m i (be32 w)) 0 (be32 v),
  slice-memcpy (memcpy m i (be32 w)) 0 (be32 v) i 4 (inl (omega (arith, length-be32 v)))
      ∙ (unfold be32 in slice-memcpy_self m i (be32 w)),
  slice-memcpy (memcpy m i (be32 w)) 0 (be32 v) 4 (i - 4) (inl (omega (arith, length-be32 v)))
      ∙ slice-memcpy m i (be32 w) 4 (i - 4) (inr (omega arith)),
  slice-memcpy (memcpy m i (be32 w)) 0 (be32 v) (i + 4) k (inl (omega (arith, length-be32 v)))
      ∙ slice-memcpy m i (be32 w) (i + 4) k (inl (omega (arith, length-be32 w))),
)

-- For a request whose buffer holds `xs` from offset 0 on, at most 2 ^ 30 bytes, with the place of
-- the count behind the first four bytes and inside `xs`, `rpc_send` first writes the record mark,
-- a last fragment of all bytes but four, over the first four bytes and the number of operations at
-- its place, and changes no other byte.
pub finish-slices :
    (r : Rpc) (xs : List ℕ) (k : ℕ)
    → Holds (rpc_buffer r) xs
    → 4 ≤ r.opcountloc
    → r.opcountloc + 4 ≤ length xs
    → length xs ≤ limit
    → (slice (rpc_buffer (finish r)).contents 0 4 ≡ record_mark (length xs - 4))
      × (slice (rpc_buffer (finish r)).contents r.opcountloc 4 ≡ be32 r.opcount)
      × (slice (rpc_buffer (finish r)).contents 4 (r.opcountloc - 4)
          ≡ slice (rpc_buffer r).contents 4 (r.opcountloc - 4))
      × (slice (rpc_buffer (finish r)).contents (r.opcountloc + 4) k
          ≡ slice (rpc_buffer r).contents (r.opcountloc + 4) k)
unfolding finish buffer_length
finish-slices r xs k h low high fits =
    let (mark, count, before, after) =
      filled-slices (rpc_buffer r).contents r.opcountloc r.opcount
        (u32 (0x80000000 + buffer_length (rpc_buffer r) + 2 ^ 32 - 4)) k low in
    rw get_buffer-set_buffer
      (mark ∙ ap be32 (omega (arith, h.size, h.origin)), count, before, after)
