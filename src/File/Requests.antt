-- ===== src/File/Requests.antt =====
-- nfsv4/rpc.c, `write_chunk`: the bytes of its request.
use mathlib.Core.Path.{subst}
use ssqlite.Prelude.{
  ℕ, true, ◌+◌, ◌^◌, ◌≤◌, ◌≡◌, refl, sym, List, [], ◌∷◌, ◌++◌, arith, length, length-append, take,
}
use ssqlite.Buffer.{u32}
use ssqlite.Buffer.Growth.{Holds, limit}
use ssqlite.Protocol.Ops.{op_sequence, op_putfh, op_write, file_sync}
use ssqlite.Xdr.Push.{
  ◌|>◌, push_word, push_long, push_opaque, push_raw, push_op, push_stateid, push_sequence,
  push_session_id, push_fixed,
}
use ssqlite.Xdr.Pieces.{
  Piece, word, long, opaque, fixed, raw, op, bump, build, bytes_of, build-Holds,
}
use ssqlite.Rpc.Config.{config_boolean}
use ssqlite.Rpc.Image.{header, length-header, allocate_rpc-Holds}
use ssqlite.Rpc.Request.{allocate_rpc, push_header, leave_opcount}
use ssqlite.Prelude.Memory.{slice}
use ssqlite.File.Access.{write_chunk}
use ssqlite.Rpc.Session.{file_rpc, transact}
use ssqlite.System.{Client, File, Machine, Rpc, Sys, to_reverse, to_forward, rpc_buffer}

-- RFC 5661: SEQUENCE with the slot 0, PUTFH with the file handle, and what follows.
abbrev pub file_pieces : Client → File → List Piece → List Piece
file_pieces c f ps =
    op op_sequence
    ∷ raw c.session
    ∷ word c.sequence
    ∷ word 0
    ∷ word 0
    ∷ word 0
    ∷ bump
    ∷ op op_putfh
    ∷ opaque (take f.filehandle_len f.filehandle)
    ∷ ps

-- WRITE: the state id, the offset, FILE_SYNC4 and the data.
abbrev pub write_pieces : File → ℕ → List ℕ → List Piece
write_pieces f offset content =
    op op_write
    ∷ word f.latest_sid.seqid
    ∷ fixed f.latest_sid.opaque
    ∷ long offset
    ∷ word file_sync
    ∷ opaque content
    ∷ []

-- The request that `write_chunk` builds.
abbrev pub write_request : {W : Type 0} → Machine W → Client → File → ℕ → List ℕ → Rpc
write_request m c f offset content =
    file_rpc m c f
    |> push_op op_write
    |> push_stateid f.latest_sid
    |> push_long offset
    |> push_word file_sync
    |> push_opaque content

module _ {W : Type 0} (m : Machine W) (c : Client) (f : File) where
  -- The file handle is used, as it is by default.
  pub file_rpc-build :
      (ps : List Piece)
      → config_boolean m "NFS_USE_FILEHANDLE" true ≡ true
      → build ps (file_rpc m c f) ≡ build (file_pieces c f ps) (allocate_rpc c to_forward)
  unfolding file_rpc push_sequence push_session_id allocate_rpc push_header leave_opcount push_word
      push_opaque push_op push_raw
  file_rpc-build ps e = rw e refl

-- The request `r` holds its header for the next xid, four bytes for the number of operations, and
-- `ps`.
abbrev pub Sends : Client → List Piece → Rpc → Type 0
Sends c ps r =
    (slot : List ℕ) × (length slot ≡ 4)
    × Holds (rpc_buffer r) ((header (u32 (c.xid + 1)) ++ slot) ++ bytes_of ps)

pub build-Sends :
    (c : Client) (ps : List Piece)
    → 92 ≤ c.forward.capacity
    → c.forward.capacity ≤ 2 ^ 31
    → length (bytes_of ps) + 100 ≤ limit
    → Sends c ps (build ps (allocate_rpc c to_forward))
build-Sends c ps low high fits =
    let (slot, held, four, place) = allocate_rpc-Holds c to_forward low high in
    (
      slot,
      four,
      build-Holds ps (allocate_rpc c to_forward) (header (u32 (c.xid + 1)) ++ slot) held (
          omega (
            arith,
            four,
            length-append (header (u32 (c.xid + 1))) slot,
            length-header (u32 (c.xid + 1)),
          )),
    )

-- A request on an open file.
abbrev pub Carries : Client → File → List Piece → Rpc → Type 0
Carries c f ps r = Sends c (file_pieces c f ps) r

module _ {W : Type 0} (m : Machine W) (c : Client) (f : File) where
  pub build-Carries :
      (ps : List Piece)
      → config_boolean m "NFS_USE_FILEHANDLE" true ≡ true
      → 92 ≤ c.forward.capacity
      → c.forward.capacity ≤ 2 ^ 31
      → length (bytes_of (file_pieces c f ps)) + 100 ≤ limit
      → Carries c f ps (build ps (file_rpc m c f))
  build-Carries ps e low high fits =
      subst (Sends c (file_pieces c f ps)) (sym (file_rpc-build m c f ps e))
        (build-Sends c (file_pieces c f ps) low high fits)

three_operations :
    {W : Type 0} (m : Machine W) (c : Client) (f : File) (offset : ℕ) (content : List ℕ)
    → config_boolean m "NFS_USE_FILEHANDLE" true ≡ true
    → (write_request m c f offset content).opcount ≡ 3
unfolding file_rpc push_sequence push_session_id allocate_rpc push_header leave_opcount push_word
    push_opaque push_op push_raw push_stateid push_long push_fixed
three_operations m c f offset content e = rw e refl

-- With the file handle in use, as it is by default, a forward buffer with a capacity from 92 to 2
-- ^ 31, and SEQUENCE, PUTFH and WRITE together at most 2 ^ 30 - 100 bytes, `write_chunk` is
-- `transact` of a request that counts three operations and holds, in the XDR forms of RFC 5661:
-- the header for the next xid, four bytes for the count, SEQUENCE, PUTFH, and WRITE with the state
-- id of the file, the offset, FILE_SYNC4 and the `n` bytes of the caller's memory from `source`
-- on.
pub write_chunk-Carries :
    {W : Type 0} (m : Machine W) (io depth : ℕ) (f : File) (source offset n : ℕ) (s : Sys W)
    → config_boolean m "NFS_USE_FILEHANDLE" true ≡ true
    → 92 ≤ s.client.forward.capacity
    → s.client.forward.capacity ≤ 2 ^ 31
    → length (bytes_of (file_pieces s.client f (write_pieces f offset (slice s.memory source n))))
        + 100
      ≤ limit
    → (write_chunk m io depth f source offset n s
        ≡ transact m io depth
            (write_request m s.client f offset (slice s.memory source n))
            op_write
            to_reverse
            s)
      × ((write_request m s.client f offset (slice s.memory source n)).opcount ≡ 3)
      × Carries s.client f
          (write_pieces f offset (slice s.memory source n))
          (write_request m s.client f offset (slice s.memory source n))
unfolding write_chunk push_stateid
write_chunk-Carries m io depth f source offset n s e low high fits =
    let content = slice s.memory source n in
    (
      refl,
      three_operations m s.client f offset content e,
      build-Carries m s.client f (write_pieces f offset content) e low high fits,
    )
