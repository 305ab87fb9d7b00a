-- ===== src/File/Access.antt =====
-- nfsv4/rpc.c and nfsv4/client.c: reading, writing, sizing and locking an open file.
use ssqlite.Prelude.{ℕ, ◌^◌, false, true, length}
use ssqlite.Prelude.Memory.{slice, memcpy}
use ssqlite.Buffer.{Buffer, sub32}
use ssqlite.Protocol.Ops.{op_getattr, op_read, op_write, op_lock, op_locku, fattr_size, file_sync}
use ssqlite.Xdr.Push.{
  ◌|>◌, push_word, push_long, push_flag, push_opaque, push_op, push_stateid, push_owner,
  push_bare_sequence, push_lock_sequence,
}
use ssqlite.Xdr.Parse.{read_beu32, read_beu64, advance, parse_stateid}
use ssqlite.Rpc.Session.{file_rpc, transact}
use ssqlite.File.Segment.{segment}
use ssqlite.System.{
  File, to_reverse, Machine, M, ◌>>=◌, ◌>>◌, pure, client_of, modify, memory_of, modify_memory,
}

module _ {W : Type 0} (m : Machine W) (io depth : ℕ) where
  unfoldable pub file_size : File → M W ℕ
  file_size f = do
    c ← client_of
    transact m io depth
        (file_rpc m c f |> push_op op_getattr |> push_word 1 |> push_word (2 ^ fattr_size))
        op_getattr to_reverse
    modify (λ c. record c { reverse = last_word c.reverse })
    read_beu64 to_reverse
    where
      last_word : Buffer → Buffer
      last_word b = record b { start = sub32 b.end 8 }

  -- As many bytes are copied as the reply announces.
  unfoldable pub read_chunk : File → ℕ → ℕ → ℕ → M W (Unit {0})
  read_chunk f dest offset length = do
    c ← client_of
    transact m io depth
        (file_rpc m c f
          |> push_op op_read
          |> push_stateid f.latest_sid
          |> push_long offset
          |> push_word length)
        op_read to_reverse
    advance to_reverse 4
    len ← read_beu32 to_reverse
    c' ← client_of
    modify_memory (λ k. memcpy k dest (slice c'.reverse.contents c'.reverse.start len))

  unfoldable pub write_chunk : File → ℕ → ℕ → ℕ → M W (Unit {0})
  write_chunk f source offset length = do
    c ← client_of
    k ← memory_of
    transact m io depth
        (file_rpc m c f
          |> push_op op_write
          |> push_stateid f.latest_sid
          |> push_long offset
          |> push_word file_sync
          |> push_opaque (slice k source length))
        op_write to_reverse

  -- The chunk size is the negotiated limit, as it stands when the call starts.
  unfoldable pub readfile : ℕ → File → ℕ → ℕ → ℕ → M W (Unit {0})
  readfile fuel f dest offset length = do
    c ← client_of
    segment (read_chunk f) c.maxresp dest offset length fuel

  unfoldable pub writefile : ℕ → File → ℕ → ℕ → ℕ → M W (Unit {0})
  writefile fuel f source offset length = do
    c ← client_of
    segment (write_chunk f) c.maxreq source offset length fuel

  -- The file as it is after the call; the status of the parse is dropped.
  unfoldable pub lock_range : File → ℕ → ℕ → ℕ → M W File
  lock_range f locktype offset length = do
    c ← client_of
    transact m io depth
        (file_rpc m c f
          |> push_op op_lock
          |> push_word locktype
          |> push_flag false
          |> push_long offset
          |> push_long length
          |> push_flag true
          |> push_bare_sequence
          |> push_stateid f.open_sid
          |> push_lock_sequence
          |> push_owner)
        op_lock to_reverse
    (sid, _) ← parse_stateid to_reverse f.latest_sid
    pure (record f { latest_sid = sid })

  unfoldable pub unlock_range : File → ℕ → ℕ → ℕ → M W File
  unlock_range f locktype offset length = do
    c ← client_of
    transact m io depth
        (file_rpc m c f
          |> push_op op_locku
          |> push_word locktype
          |> push_bare_sequence
          |> push_stateid f.latest_sid
          |> push_long offset
          |> push_long length)
        op_locku to_reverse
    (sid, _) ← parse_stateid to_reverse f.latest_sid
    pure (record f { latest_sid = sid })
