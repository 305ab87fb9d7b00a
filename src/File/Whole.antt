-- ===== src/File/Whole.antt =====
-- nfsv4/client.c and nfsv4/rpc.c, `readfile`: a whole read, chunk by chunk.
use mathlib.Core.Path.{subst, ap₂}
use ssqlite.Prelude.{ℕ, suc, ◌+◌, ◌-◌, ◌^◌, ◌<◌, ◌≤◌, ◌≡◌, refl, ap, ◌∙◌, List, ◌∷◌, [], arith}
use ssqlite.Prelude.Memory.{Block, slice, length-slice}
use ssqlite.Protocol.Ops.{op_read}
use ssqlite.Rpc.Config.{u64}
use ssqlite.Rpc.Transact.{Answered}
use ssqlite.File.Access.{read_chunk, readfile}
use ssqlite.File.Reading.{read_request, read_result, read_chunk-memcpy}
use ssqlite.File.Filled.{Filled, Filled-nil, Filled-eq, Filled-chunk}
use ssqlite.File.Segment.Chunks.{Chunk, chunks, Tiles, Tiles-le, in_order, segment-in_order}
use ssqlite.System.{File, Machine, Sys, M, ◌>>◌, ◌>>=◌, to_reverse, ok}

module _ {W : Type 0} (m : Machine W) (io depth : ℕ) (f : File) (stored : Block) where
  -- The request for the `n` bytes at `offset` is answered with the bytes that `stored` has there.
  pub record Served (offset n : ℕ) (s : Sys W) : Type 0 where
    pub eof : ℕ
    pub rest : List ℕ
    pub after : W
    pub eof_small : eof < 2 ^ 32
    pub answered :
        Answered m io
          (read_request m s.client f offset n)
          op_read
          to_reverse
          (read_result eof (slice stored offset n) rest)
          s.world
          after

  module _ (x offset : ℕ) where
    -- So is each of the requests for the chunks, in the state that the one before leaves.
    abbrev pub Serves : List Chunk → Sys W → Type 0
    Serves [] s = Unit
    Serves ((start, n) ∷ cs) s =
        Served (u64 (offset + start)) n s
        × Serves cs (read_chunk m io (suc depth) f (x + start) (u64 (offset + start)) n s).1

    in_order-Filled :
        (size done stop : ℕ) (cs : List Chunk) (s : Sys W)
        → Tiles size done stop cs
        → offset + stop ≤ 2 ^ 64
        → stop < 2 ^ 32
        → Serves cs s
        → (s' : Sys W) × (in_order (read_chunk m io (suc depth) f) x offset cs s ≡ (ok tt, s'))
          × Filled s.memory s'.memory (x + done) (slice stored (offset + done) (stop - done))
    unfolding in_order
    in_order-Filled size done stop [] s e fits small h = (
      s,
      refl,
      Filled-eq s.memory s.memory (x + done) (x + done) []
          (slice stored (offset + done) (stop - done)) refl
          (ap (slice stored (offset + done)) zero_left) (Filled-nil s.memory (x + done)),
    )
      where
        zero_left : 0 ≡ stop - done
        zero_left = omega (arith, e)
    in_order-Filled size done stop ((start, n) ∷ cs) s (e, p, q, t) fits small (h, hs) =
        let content = slice stored (u64 (offset + start)) n in
        let le = Tiles-le size (done + n) stop cs t in
        let (y, read) =
          read_chunk-memcpy m io depth f (x + start) (u64 (offset + start)) n s h.after h.eof
            content h.rest h.eof_small (omega (arith, length-slice stored (u64 (offset + start)) n))
            h.answered in
        let (s', later, filled) =
          in_order-Filled size (done + n) stop cs _ t fits small
            (subst (Serves cs) (ap (λ r. r.1) read) hs) in
        (
          s',
          rw (read, ◌>>◌, ◌>>=◌) later,
          Filled-chunk stored s.memory s'.memory x offset done n stop (x + start)
              (u64 (offset + start)) (omega (arith, e)) (omega (arith, e)) le filled,
        )

  -- If each request for a chunk is answered with the bytes that the file on the server has at its
  -- offset, in the state that the chunk before it leaves, the negotiated limit is above 0, the
  -- length is below 2 ^ 32, the end of the transfer at most 2 ^ 64 and the fuel above the length,
  -- then `readfile` succeeds, the caller's memory has at `dest` the bytes of the file from
  -- `offset` on, as many as were asked for, and no other byte of it has changed.
  pub readfile-Filled :
      (fuel dest offset amount : ℕ) (s : Sys W)
      → 0 < s.client.maxresp
      → amount < 2 ^ 32
      → offset + amount ≤ 2 ^ 64
      → amount < fuel
      → Serves dest offset (chunks amount s.client.maxresp 0 amount) s
      → (s' : Sys W) × (readfile m io (suc depth) fuel f dest offset amount s ≡ (ok tt, s'))
        × Filled s.memory s'.memory dest (slice stored offset amount)
  unfolding readfile
  readfile-Filled fuel dest offset amount s positive small fits enough h =
      let (same, tiles) =
        segment-in_order (read_chunk m io (suc depth) f) dest offset s.client.maxresp amount fuel
          positive small enough in
      let (s', all, filled) =
        in_order-Filled dest offset s.client.maxresp 0 amount
          (chunks amount s.client.maxresp 0 amount) s tiles fits small h in
      (
        s',
        ap (λ (c : M W (Unit {0})). c s) same ∙ all,
        Filled-eq s.memory s'.memory (dest + 0) dest (slice stored (offset + 0) (amount - 0))
            (slice stored offset amount) (omega arith)
            (ap₂ (slice stored) (omega arith) (omega arith)) filled,
      )
