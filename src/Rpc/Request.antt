-- ===== src/Rpc/Request.antt =====
-- nfsv4/rpc.c: how a request is begun, how it resolves a path, and how it is finished.
use ssqlite.Prelude.{ℕ, ◌+◌, ◌-◌, ◌*◌, ◌^◌, List, [], ◌∷◌, Option, none, some}
use ssqlite.Prelude.Memory.{memcpy}
use ssqlite.Buffer.{Buffer, u32, buffer_length}
use ssqlite.Protocol.Ops.{op_putfh, op_putrootfh, op_lookup, nfs_program, sessionid_size}
use ssqlite.Xdr.Words.{be32}
use ssqlite.Xdr.Push.{◌|>◌, codes, push_word, push_opaque, push_op}
use ssqlite.System.{Client, Rpc, Which, on_buffer, rpc_buffer}

-- `b->start = b->end = 0`
unfoldable pub reset : Buffer → Buffer
reset b = record b { start = 0; end = 0 }

-- `b->end += 4` for the count of operations that `rpc_send` fills in
unfoldable pub leave_opcount : Rpc → Rpc
leave_opcount r = record (on_buffer (λ b. record b { end = u32 (b.end + 4) }) r) {
  opcountloc = (rpc_buffer r).end;
  opcount = 0;
}

-- `++c->xid`
abbrev pub next_xid : Client → Client
next_xid c = record c { xid = u32 (c.xid + 1) }

-- The record mark, the call header with its credentials, and the start of the COMPOUND.
unfoldable pub push_header : ℕ → Rpc → Rpc
push_header xid r =
    r
    |> push_word 0
    |> push_word xid
    |> push_word 0
    |> push_word 2
    |> push_word nfs_program
    |> push_word 4
    |> push_word 1
    |> push_word 1
    |> push_word 36
    |> push_word 0x111ff274
    |> push_opaque (codes "ip-192-168-1-40")
    |> push_word 0
    |> push_word 0
    |> push_word 0
    |> push_word 0
    |> push_word 0
    |> push_word 0
    |> push_word 1

unfoldable pub allocate_rpc : Client → Which → Rpc
allocate_rpc c b =
    let r : Rpc = record { c = next_xid c; opcountloc = 0; opcount = 0; b = b } in
    r |> on_buffer reset |> push_header (next_xid c).xid |> leave_opcount

-- One LOOKUP for each component.
unfoldable pub push_lookups : List (List ℕ) → Rpc → Rpc
push_lookups [] r = r
push_lookups (i ∷ path) r = push_lookups path (r |> push_op op_lookup |> push_opaque i)

unfoldable pub push_resolution_rfh : List (List ℕ) → Rpc → Rpc
push_resolution_rfh path r =
    r |> push_op op_putfh |> push_opaque r.c.root_filehandle |> push_lookups path

unfoldable pub push_resolution : List (List ℕ) → Rpc → Rpc
push_resolution path r = r |> push_op op_putrootfh |> push_lookups path

-- All components but the last, and the last; `none` where `vector_get` is out of bounds.
unfoldable pub split_last : List (List ℕ) → Option (List (List ℕ) × List ℕ)
split_last [] = none
split_last (x ∷ []) = some ([], x)
split_last (x ∷ y ∷ path) = elim (split_last (y ∷ path)) [
  | none ↦ none
  | some (front, last) ↦ some (x ∷ front, last)
]

-- The request that resolves the directory, and the last component.
unfoldable pub push_initial_path : List (List ℕ) → Rpc → Option (Rpc × List ℕ)
push_initial_path path r = elim (split_last path) [
  | none ↦ none
  | some (front, last) ↦ some (push_resolution_rfh front r, last)
]

-- The two words that are filled in when the request goes out: the number of operations, and the
-- record mark, the last fragment's length.
unfoldable pub finish : Rpc → Rpc
finish r =
    on_buffer
      (λ b. record b {
        contents =
            memcpy (memcpy b.contents r.opcountloc (be32 r.opcount)) 0
              (be32 (u32 (0x80000000 + buffer_length b + 2 ^ 32 - 4)));
      })
      r

-- The offset of the session, as `replay_rpc` counts it.
abbrev pub replay_offset : ℕ
replay_offset = 4 * 15

unfoldable pub patch : Buffer → ℕ → List ℕ → Buffer
patch b i xs = record b { contents = memcpy b.contents i xs }

-- The session and the sequence are written from `replay_offset` on, the xid at 4.
unfoldable pub replay_rpc : Rpc → Rpc
replay_rpc r =
    let c = r.c in
    let c' : Client = record c { sequence = u32 (c.sequence + 1); xid = u32 (c.xid + 1) } in
    on_buffer
      (λ b.
        patch
          (patch (patch b replay_offset c.session) (replay_offset + sessionid_size)
            (be32 c.sequence))
          4 (be32 c'.xid))
      (record r { c = c' })
