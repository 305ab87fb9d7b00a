-- ===== src/File/Reading.antt =====
-- nfsv4/rpc.c, `read_chunk`: what the server's answer does to the caller's memory.
use ssqlite.Prelude.{ℕ, false, suc, ◌^◌, ◌<◌, ◌≡◌, refl, List, ◌++◌, length}
use ssqlite.Prelude.Memory.{memcpy}
use ssqlite.Buffer.{Buffer}
use ssqlite.Protocol.Ops.{op_read}
use ssqlite.Xdr.Words.{be32, skip}
use ssqlite.Xdr.Decode.{skip-Ahead}
use ssqlite.Xdr.Push.{◌|>◌, push_op, push_stateid, push_long, push_word}
use ssqlite.Xdr.At.{at_buffer, advance-at, read_beu32-at, skip_word}
use ssqlite.Rpc.Request.{finish}
use ssqlite.Rpc.Session.{file_rpc}
use ssqlite.Rpc.Transact.{Answered}
use ssqlite.Rpc.Recovery.{transact-Answered}
use ssqlite.File.Access.{read_chunk}
use ssqlite.System.{Client, File, Machine, Rpc, Sys, to_reverse, ok}

-- The request that `read_chunk` builds.
abbrev pub read_request : {W : Type 0} → Machine W → Client → File → ℕ → ℕ → Rpc
read_request m c f offset n =
    file_rpc m c f
    |> push_op op_read
    |> push_stateid f.latest_sid
    |> push_long offset
    |> push_word n

-- The result of READ behind its status: the end-of-file flag and the data with their length.
abbrev pub read_result : ℕ → List ℕ → List ℕ → List ℕ
read_result eof content rest = be32 eof ++ (be32 (length content) ++ (content ++ rest))

-- If the request is written whole and answered, with the status 0 of each result up to that of
-- READ, then `read_chunk` succeeds and copies all the data of the answer to `dest`, however many
-- bytes were asked for, and changes no other byte of the caller's memory.
pub read_chunk-memcpy :
    {W : Type 0} (m : Machine W) (io depth : ℕ) (f : File) (dest offset n : ℕ) (s : Sys W) (w : W)
    (eof : ℕ) (content rest : List ℕ)
    → eof < 2 ^ 32
    → length content < 2 ^ 32
    → Answered m io
        (read_request m s.client f offset n)
        op_read
        to_reverse
        (read_result eof content rest)
        s.world
        w
    → (y : Buffer) × (read_chunk m io (suc depth) f dest offset n s ≡ (
      ok tt,
      at_buffer to_reverse y (record s {
        client = (finish (read_request m s.client f offset n)).c;
        world = w;
        memory = memcpy s.memory dest content;
        badsession = false;
      }),
    ))
unfolding read_chunk
read_chunk-memcpy {W} m io depth f dest offset n s w eof content rest eof_small data_small q =
    let r = read_request m s.client f offset n in
    let after : Sys W = record s { client = (finish r).c; world = w; badsession = false } in
    let (x, e, a) =
      transact-Answered m io depth r op_read to_reverse s w (read_result eof content rest) q in
    let a1 = skip_word x eof _ a in
    let a2 = skip_word _ (length content) _ a1 in
    (
      skip (skip x 4) 4,
      rw e (
          rw (advance-at to_reverse x after 4) (
            rw
              (read_beu32-at to_reverse (skip x 4) after (length content) (content ++ rest)
                data_small a1)
              (rw (skip-Ahead (skip (skip x 4) 4) content rest a2).1 refl))),
    )
