-- ===== src/File/Written.antt =====
-- nfsv4/client.c and nfsv4/rpc.c, `writefile`: a whole write against the file on the server.
use mathlib.Core.Path.{subst, ap₂}
use ssqlite.Prelude.{
  ℕ, suc, ◌+◌, ◌-◌, ◌^◌, ◌<◌, ◌≤◌, ◌≡◌, inl, refl, false, ap, ◌∙◌, List, ◌∷◌, [], ◌++◌, arith,
}
use ssqlite.Prelude.Memory.{Block, slice, memcpy, slice-memcpy, length-slice}
use ssqlite.Protocol.Ops.{op_write}
use ssqlite.Buffer.{Buffer}
use ssqlite.Xdr.Words.{be32}
use ssqlite.Xdr.Decode.{Ahead}
use ssqlite.Xdr.At.{at_buffer}
use ssqlite.Rpc.Config.{u64}
use ssqlite.Rpc.Request.{finish}
use ssqlite.Rpc.Transact.{Answered}
use ssqlite.Rpc.Recovery.{transact-Answered}
use ssqlite.File.Access.{write_chunk, writefile}
use ssqlite.File.Requests.{write_request}
use ssqlite.File.Filled.{Filled, Filled-nil, Filled-eq, Filled-chunk}
use ssqlite.File.Segment.Chunks.{Chunk, chunks, Tiles, Tiles-le, in_order, segment-in_order}
use ssqlite.System.{File, Machine, Sys, M, ◌>>◌, ◌>>=◌, to_reverse, ok}

-- `disk` is what the file holds on the server.
module _ {W : Type 0} (m : Machine W) (io depth : ℕ) (f : File) (disk : W → Block) where
  -- The request for the `n` bytes at `source` is answered with the number `count` of those that
  -- were stored, and they are on the server then.
  pub record Stored (source offset n count : ℕ) (s : Sys W) : Type 0 where
    pub rest : List ℕ
    pub after : W
    pub answered :
        Answered m io
          (write_request m s.client f offset (slice s.memory source n))
          op_write
          to_reverse
          (be32 count ++ rest)
          s.world
          after
    pub stored : disk after ≡ memcpy (disk s.world) offset (slice s.memory source count)

  pub write_chunk-stored :
      (source offset n count : ℕ) (s : Sys W) (h : Stored source offset n count s)
      → (y : Buffer) × (write_chunk m io (suc depth) f source offset n s ≡ (
        ok tt,
        at_buffer to_reverse y (record s {
          client = (finish (write_request m s.client f offset (slice s.memory source n))).c;
          world = h.after;
          badsession = false;
        }),
      ))
        × Ahead y (be32 count ++ h.rest)
  unfolding write_chunk
  write_chunk-stored source offset n count s h =
      let (y, e, a) =
        transact-Answered m io depth (write_request m s.client f offset (slice s.memory source n))
          op_write to_reverse s h.after (be32 count ++ h.rest) h.answered in
      (y, e, a)

  -- If the request for a chunk is answered with the status 0 of each result up to that of WRITE,
  -- and the server has then stored only the first `count` of the `n` bytes and says so, then
  -- `write_chunk` succeeds all the same, and on the server the rest of the stretch is as before.
  pub write_chunk_short_succeeds :
      (source offset n count : ℕ) (s : Sys W)
      → count < n
      → Stored source offset n count s
      → (s' : Sys W) × (write_chunk m io (suc depth) f source offset n s ≡ (ok tt, s'))
        × (slice (disk s'.world) (offset + count) (n - count)
            ≡ slice (disk s.world) (offset + count) (n - count))
  write_chunk_short_succeeds source offset n count s p h =
      let (y, e, a) = write_chunk-stored source offset n count s h in
      (
        _,
        e,
        ap (λ (k : Block). slice k (offset + count) (n - count)) h.stored
            ∙ slice-memcpy (disk s.world) offset (slice s.memory source count) (offset + count)
                (n - count) (inl (omega (arith, length-slice s.memory source count))),
      )

  module _ (x offset : ℕ) where
    -- Each of the requests for the chunks is answered, in the state that the one before leaves,
    -- and all its bytes are stored.
    abbrev pub StoresAll : List Chunk → Sys W → Type 0
    StoresAll [] s = Unit
    StoresAll ((start, n) ∷ cs) s =
        Stored (x + start) (u64 (offset + start)) n n s
        × StoresAll cs (write_chunk m io (suc depth) f (x + start) (u64 (offset + start)) n s).1

    in_order-stored :
        (size done stop : ℕ) (cs : List Chunk) (s : Sys W)
        → Tiles size done stop cs
        → offset + stop ≤ 2 ^ 64
        → StoresAll cs s
        → (s' : Sys W) × (in_order (write_chunk m io (suc depth) f) x offset cs s ≡ (ok tt, s'))
          × (s'.memory ≡ s.memory)
          × Filled
              (disk s.world)
              (disk s'.world)
              (offset + done)
              (slice s.memory (x + done) (stop - done))
    unfolding in_order
    in_order-stored size done stop [] s e fits h = (
      s,
      refl,
      refl,
      Filled-eq (disk s.world) (disk s.world) (offset + done) (offset + done) []
          (slice s.memory (x + done) (stop - done)) refl (ap (slice s.memory (x + done)) zero_left)
          (Filled-nil (disk s.world) (offset + done)),
    )
      where
        zero_left : 0 ≡ stop - done
        zero_left = omega (arith, e)
    in_order-stored size done stop ((start, n) ∷ cs) s (e, p, q, t) fits (h, hs) =
        let le = Tiles-le size (done + n) stop cs t in
        let (y, written, a) = write_chunk-stored (x + start) (u64 (offset + start)) n n s h in
        let (s', later, same, filled) =
          in_order-stored size (done + n) stop cs _ t fits
            (subst (StoresAll cs) (ap (λ r. r.1) written) hs) in
        (
          s',
          rw (written, ◌>>◌, ◌>>=◌) later,
          same,
          Filled-chunk s.memory (disk s.world) (disk s'.world) offset x done n stop
              (u64 (offset + start)) (x + start) (place start done n stop e p le fits)
              (omega (arith, e)) le
              (subst
                (λ (k : Block).
                  Filled k (disk s'.world) (offset + (done + n))
                    (slice s.memory (x + (done + n)) (stop - (done + n))))
                h.stored filled),
        )
      where
        place :
            (start done n stop : ℕ)
            → start ≡ done
            → 0 < n
            → done + n ≤ stop
            → offset + stop ≤ 2 ^ 64
            → u64 (offset + start) ≡ offset + done
        place start done n stop e p le fits = omega arith

  -- If each request for a chunk is answered, in the state that the chunk before it leaves, and all
  -- its bytes are stored, the negotiated limit is above 0, the length is below 2 ^ 32, the end of
  -- the transfer at most 2 ^ 64 and the fuel above the length, then `writefile` succeeds, the file
  -- on the server has at `offset` the bytes of the caller's memory from `source` on, as many as
  -- were given, no other byte of it has changed, and the caller's memory is as before.
  pub writefile-Filled :
      (fuel source offset amount : ℕ) (s : Sys W)
      → 0 < s.client.maxreq
      → amount < 2 ^ 32
      → offset + amount ≤ 2 ^ 64
      → amount < fuel
      → StoresAll source offset (chunks amount s.client.maxreq 0 amount) s
      → (s' : Sys W) × (writefile m io (suc depth) fuel f source offset amount s ≡ (ok tt, s'))
        × (s'.memory ≡ s.memory)
        × Filled (disk s.world) (disk s'.world) offset (slice s.memory source amount)
  unfolding writefile
  writefile-Filled fuel source offset amount s positive small fits enough h =
      let (same, tiles) =
        segment-in_order (write_chunk m io (suc depth) f) source offset s.client.maxreq amount fuel
          positive small enough in
      let (s', all, kept, filled) =
        in_order-stored source offset s.client.maxreq 0 amount
          (chunks amount s.client.maxreq 0 amount) s tiles fits h in
      (
        s',
        ap (λ (c : M W (Unit {0})). c s) same ∙ all,
        kept,
        Filled-eq (disk s.world) (disk s'.world) (offset + 0) offset
            (slice s.memory (source + 0) (amount - 0)) (slice s.memory source amount) (omega arith)
            (ap₂ (slice s.memory) (omega arith) (omega arith)) filled,
      )
