-- ===== src/Rpc/Setup.antt =====
-- nfsv4/rpc.c, `rpc_connection`: each step of setting up a session, where the server answers.
use ssqlite.Prelude.{
  ℕ, suc, ◌^◌, ◌<◌, ◌≤◌, ◌≡◌, refl, false, List, ◌++◌, some, arith, length, drop, ltb-false,
}
use ssqlite.Buffer.{Buffer, bytes}
use ssqlite.Protocol.Ops.{
  op_exchange_id, op_create_session, op_getfh, op_reclaim_complete, op_putrootfh,
}
use ssqlite.Xdr.Words.{be32, skip}
use ssqlite.Xdr.Decode.{Ahead}
use ssqlite.Xdr.Push.{
  fill_random, push_long, push_raw, push_opaque, codes, ◌|>◌, push_exchange_id, push_create_session,
  push_sequence, push_op, push_word,
}
use ssqlite.Xdr.At.{at_buffer, read_beu32-at, read_buffer-at, skip_word, skip_bytes}
use ssqlite.Xdr.Limits.{
  Granted, HasSizes, granted_bytes, limited, take_raw-at, parse_create_session-limited,
}
use ssqlite.Xdr.Parse.{parse_exchange_id}
use ssqlite.Rpc.Request.{push_header, leave_opcount, allocate_rpc, finish}
use ssqlite.Rpc.Session.{
  until_nul, nfs4_connect, first_sequences, next_server_sequence, exchange_id, create_session,
  get_root_fh, reclaim_complete, transact,
}
use ssqlite.Rpc.Transact.{Answered, base_transact-Answered}
use ssqlite.Rpc.Recovery.{transact-Answered}
use ssqlite.System.{Client, Machine, Rpc, Sys, to_reverse, ok}

-- The state after a call that was answered in the world `w`, with `y` in the reverse buffer.
abbrev pub answered_state : {W : Type 0} → Sys W → Rpc → W → Buffer → Sys W
answered_state s r w y =
    at_buffer to_reverse y (record s { client = (finish r).c; world = w; badsession = false })

-- The requests that are built from the client alone, and the client with the root.
abbrev pub session_request : Client → Rpc
session_request c =
    allocate_rpc c to_reverse |> first_sequences |> push_create_session |> next_server_sequence

-- With the owner id that `fill_random` made.
abbrev pub identify_request : Client → List ℕ → Rpc
identify_request c owner =
    allocate_rpc c to_reverse
    |> push_op op_exchange_id
    |> push_raw c.instance_verifier
    |> push_opaque owner
    |> push_word 0
    |> push_word 0
    |> push_word 1
    |> push_opaque (codes "edu.berkeley")
    |> push_opaque (codes "NFS for Serverless v. 0.1-snapshot")
    |> push_long 0
    |> push_word 0

abbrev pub root_request : Client → Rpc
root_request c =
    allocate_rpc c to_reverse |> push_sequence |> push_op op_putrootfh |> push_op op_getfh

abbrev pub reclaim_request : Client → Rpc
reclaim_request c =
    allocate_rpc c to_reverse |> push_sequence |> push_op op_reclaim_complete |> push_word 0

abbrev pub rooted : List ℕ → Client → Client
rooted handle c = record c {
  root_filehandle_len = length handle;
  root_filehandle = handle ++ drop (length handle) c.root_filehandle;
}

module _ {W : Type 0} (m : Machine W) (io : ℕ) where
  -- The address is found and the connection made.
  pub record Connects (s : Sys W) : Type 0 where
    pub address : List ℕ
    pub fd : ℕ
    pub found : W
    pub dialed : W
    pub resolved : m.resolve (until_nul (bytes s.client.hostname)) s.world ≡ (some address, found)
    pub connected : m.dial address found ≡ ((fd, 0), dialed)

  pub nfs4_connect-Connects :
      (s : Sys W) (h : Connects s)
      → nfs4_connect m s ≡ (
        ok tt,
        record s { client = record s.client { address = h.address; fd = h.fd }; world = h.dialed },
      )
  unfolding nfs4_connect
  nfs4_connect-Connects s h = rw (h.resolved, nfs4_connect) (rw h.connected refl)

  -- EXCHANGE_ID is answered with a client id and a sequence.
  pub record Identifies (s : Sys W) : Type 0 where
    pub owner : List ℕ
    pub built_in : W
    pub clientid : List ℕ
    pub server_sequence : ℕ
    pub flags : ℕ
    pub rest : List ℕ
    pub after : W
    pub built : fill_random m 16 16 s ≡ (ok owner, record s { world = built_in })
    pub answered :
        Answered m io
          (identify_request s.client owner)
          op_exchange_id
          to_reverse
          (clientid ++ (be32 server_sequence ++ (be32 flags ++ rest)))
          built_in
          after
    pub clientid_size : length clientid ≡ 8
    pub sequence_small : server_sequence < 2 ^ 32
    pub flags_small : flags < 2 ^ 32

  pub exchange_id-Identifies :
      (s : Sys W) (h : Identifies s)
      → (y : Buffer) × (exchange_id m io s ≡ (
        ok tt,
        at_buffer to_reverse y (record s {
          client = record (finish (identify_request s.client h.owner)).c {
            clientid = h.clientid;
            server_sequence = h.server_sequence;
          };
          world = h.after;
          badsession = false;
        }),
      ))
        × Ahead y h.rest
  unfolding exchange_id parse_exchange_id push_exchange_id allocate_rpc push_header leave_opcount
      push_op push_word push_raw push_opaque push_long
  exchange_id-Identifies s h =
      let r = identify_request s.client h.owner in
      let s0 : Sys W = record s { world = h.built_in } in
      let s1 : Sys W = record s0 { client = (finish r).c; world = h.after; badsession = false } in
      let s2 : Sys W = record s1 { client = record s1.client { clientid = h.clientid } } in
      let s3 : Sys W = record s2 {
        client = record s2.client { server_sequence = h.server_sequence };
      } in
      let (x, e, a) =
        base_transact-Answered m io r op_exchange_id to_reverse s0 h.after _ h.answered in
      let a1 = skip_bytes x h.clientid _ 8 h.clientid_size a in
      let a2 = skip_word _ h.server_sequence _ a1 in
      (
        skip (skip (skip x 8) 4) 4,
        rw h.built (
            rw e (
              rw (take_raw-at s1 x h.clientid _ 8 h.clientid_size a) (
                rw (read_beu32-at to_reverse _ s2 h.server_sequence _ h.sequence_small a1)
                  (rw (read_beu32-at to_reverse _ s3 h.flags _ h.flags_small a2) refl)))),
        skip_word _ h.flags h.rest a2,
      )

  -- CREATE_SESSION is answered, at once, with a session and its limits.
  pub record Grants (s : Sys W) : Type 0 where
    pub granted : Granted
    pub rest : List ℕ
    pub after : W
    pub answered :
        Answered m io
          (session_request s.client)
          op_create_session
          to_reverse
          (granted_bytes granted rest)
          s.world
          after
    pub sized : HasSizes granted

  pub create_session-Grants :
      (depth : ℕ) (s : Sys W) (h : Grants s)
      → (y : Buffer) × (create_session m io (transact m io (suc depth)) s ≡ (
        ok tt,
        at_buffer to_reverse y (record s {
          client = limited h.granted (finish (session_request s.client)).c;
          world = h.after;
          badsession = false;
        }),
      ))
        × Ahead y h.rest
  unfolding create_session
  create_session-Grants depth s h =
      let r = session_request s.client in
      let s1 : Sys W = record s { client = (finish r).c; world = h.after; badsession = false } in
      let (x, e, a) =
        transact-Answered m io depth r op_create_session to_reverse s h.after _ h.answered in
      let (y, f, a1) = parse_create_session-limited s1 x h.granted h.rest h.sized a in
      (y, rw e f, a1)

  -- PUTROOTFH and GETFH are answered with the handle of the root.
  pub record FindsRoot (s : Sys W) : Type 0 where
    pub handle : List ℕ
    pub rest : List ℕ
    pub after : W
    pub answered :
        Answered m io
          (root_request s.client)
          op_getfh
          to_reverse
          (be32 (length handle) ++ (handle ++ rest))
          s.world
          after
    pub handle_short : length handle ≤ 128

  pub get_root_fh-FindsRoot :
      (s : Sys W) (h : FindsRoot s)
      → (y : Buffer) × (get_root_fh m io s ≡ (
        ok tt,
        at_buffer to_reverse y (record s {
          client = rooted h.handle (finish (root_request s.client)).c;
          world = h.after;
          badsession = false;
        }),
      ))
        × Ahead y h.rest
  unfolding get_root_fh
  get_root_fh-FindsRoot s h =
      let r = root_request s.client in
      let size = length h.handle in
      let s1 : Sys W = record s { client = (finish r).c; world = h.after; badsession = false } in
      let s2 : Sys W = record s1 { client = record s1.client { root_filehandle_len = size } } in
      let (x, e, a) = base_transact-Answered m io r op_getfh to_reverse s h.after _ h.answered in
      let a1 = skip_word x size _ a in
      let short : size < 2 ^ 32 = omega (arith, h.handle_short) in
      (
        skip (skip x 4) size,
        rw e (
            rw (read_beu32-at to_reverse x s1 size _ short a) (
              rw (ltb-false 128 size h.handle_short)
                (rw (read_buffer-at to_reverse (skip x 4) s2 h.handle h.rest size refl a1) refl))),
        skip_bytes (skip x 4) h.handle h.rest size refl a1,
      )

  pub record Reclaims (s : Sys W) : Type 0 where
    pub rest : List ℕ
    pub after : W
    pub answered :
        Answered m io (reclaim_request s.client) op_reclaim_complete to_reverse rest s.world after

  pub reclaim_complete-Reclaims :
      (s : Sys W) (h : Reclaims s)
      → (y : Buffer) × (reclaim_complete m io s ≡ (
        ok tt,
        at_buffer to_reverse y (record s {
          client = (finish (reclaim_request s.client)).c;
          world = h.after;
          badsession = false;
        }),
      ))
  unfolding reclaim_complete
  reclaim_complete-Reclaims s h =
      let (y, e, a) =
        base_transact-Answered m io (reclaim_request s.client) op_reclaim_complete to_reverse s
          h.after h.rest h.answered in
      (y, e)
