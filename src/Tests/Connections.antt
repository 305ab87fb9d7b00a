-- ===== src/Tests/Connections.antt =====
-- A client that sets up a session.
use mathlib.Core.Path.{subst}
use Prim.Native.Nat.{min}
use ssqlite.Prelude.{
  ℕ, ◌+◌, ◌%◌, ◌≤◌, ◌^◌, ◌≡◌, refl, sym, ap, ◌∙◌, List, [], ◌∷◌, ◌++◌, arith, length, replicate,
  drop, length-append,
}
use ssqlite.Buffer.{Buffer}
use ssqlite.Buffer.Growth.{limit}
use ssqlite.Protocol.Ops.{opcode, op_getfh, op_reclaim_complete, op_putrootfh}
use ssqlite.Rpc.Request.{finish, allocate_rpc, push_header, leave_opcount, reset}
use ssqlite.Rpc.Session.{
  rpc_connection, transact, first_sequences, next_server_sequence, exchange_id, create_session,
  get_root_fh,
}
use ssqlite.Rpc.Setup.{
  Identifies, Grants, FindsRoot, Reclaims, session_request, root_request, reclaim_request, rooted,
  nfs4_connect-Connects, exchange_id-Identifies, create_session-Grants, get_root_fh-FindsRoot,
}
use ssqlite.Rpc.Connected.{session_state, SetsUp, rpc_connection-SetsUp}
use ssqlite.Xdr.Push.{
  push_sequence, push_session_id, push_word, push_long, push_opaque, push_op, push_raw,
  push_create_session, push_channel_attrs, push_client_id,
}
use ssqlite.Xdr.Pieces.{Piece, word, op, bump, bytes_of}
use ssqlite.Xdr.Decode.{Ahead}
use ssqlite.Xdr.Limits.{limited}
use ssqlite.Xdr.Words.{be32}
use ssqlite.System.{Client, Sys, rpc_buffer, ok}
use ssqlite.Tests.Whole.{machine12, build-IsValid, answer_to-Answered}
use ssqlite.Tests.Sessions.{
  filler, grant12, handle12, root12, pieces4, pieces3, start12, state1, connects12, identifies12,
  client2, state2,
}
use ssqlite.Tests.Grants.{sequence_pieces, root_built, reclaim_built, room, grants12}

-- The client with the session, the root, and its connection reclaimed.
abbrev client3 : Buffer → Buffer → Client
client3 y z = record (limited grant12 (finish (session_request (client2 y))).c) { reverse = z }

abbrev state3 : Buffer → Buffer → Sys (List (List ℕ))
state3 y z = record start12 { client = client3 y z; world = pieces3 }

xid3 : (y z : Buffer) → (client3 y z).xid ≡ 11
unfolding finish allocate_rpc push_header leave_opcount push_op push_word push_opaque push_raw
    push_long push_sequence push_session_id first_sequences next_server_sequence push_create_session
    push_channel_attrs push_client_id reset
xid3 y z = refl

xid_root : (c : Client) → (finish (root_request c)).c.xid ≡ (c.xid + 1) % 2 ^ 32
unfolding finish allocate_rpc push_header leave_opcount push_op push_word push_opaque push_raw
    push_long push_sequence push_session_id first_sequences next_server_sequence push_create_session
    push_channel_attrs push_client_id reset
xid_root c = refl

reverse_root :
    (c : Client) → rpc_buffer (finish (root_request c)) ≡ (finish (root_request c)).c.reverse
unfolding finish allocate_rpc push_header leave_opcount push_op push_word push_opaque push_raw
    push_long push_sequence push_session_id first_sequences next_server_sequence push_create_session
    push_channel_attrs push_client_id reset
reverse_root c = refl

-- A request of SEQUENCE and a short rest fits.
sequence_fits :
    (c : Client) (ps : List Piece)
    → length c.session ≡ 16
    → length (bytes_of ps) ≤ 100
    → length (bytes_of (sequence_pieces c ps)) + 100 ≤ limit
unfolding be32 opcode
sequence_fits c ps h k = omega (
  arith,
  length-append c.session (bytes_of (word c.sequence ∷ word 0 ∷ word 0 ∷ word 0 ∷ bump ∷ ps)),
  h,
  k,
)

finds_root12 : (y z : Buffer) → Ahead z filler → FindsRoot machine12 9 (state3 y z)
finds_root12 y z a =
    let (low, high) = room z a in
    let c = client3 y z in
    let ps = op op_putrootfh ∷ op op_getfh ∷ [] in
    record {
      handle = handle12;
      rest = filler;
      after = pieces4;
      answered =
          answer_to-Answered 12 (root_request c) op_getfh root12 pieces4
            (omega (arith, xid_root c, xid3 y z)) (reverse_root c)
            (build-IsValid c (sequence_pieces c ps) (root_request c) (root_built c) low high
              (sequence_fits c ps refl (unfold be32 in omega arith)))
            (unfold opcode in ((refl, omega arith, refl), refl, (tt, refl, tt)))
            (unfold be32 in omega arith) (omega arith);
      handle_short = omega arith;
    }

abbrev client4 : Buffer → Buffer → Buffer → Client
client4 y z x = record (rooted handle12 (finish (root_request (client3 y z))).c) { reverse = x }

abbrev state4 : Buffer → Buffer → Buffer → Sys (List (List ℕ))
state4 y z x = record start12 { client = client4 y z x; world = pieces4 }

xid4 : (y z x : Buffer) → (client4 y z x).xid ≡ 12
unfolding finish allocate_rpc push_header leave_opcount push_op push_word push_opaque push_raw
    push_long push_sequence push_session_id first_sequences next_server_sequence push_create_session
    push_channel_attrs push_client_id reset
xid4 y z x = refl

session4 : (y z x : Buffer) → (client4 y z x).session ≡ replicate 16 6
unfolding finish allocate_rpc push_header leave_opcount push_op push_word push_opaque push_raw
    push_long push_sequence push_session_id first_sequences next_server_sequence push_create_session
    push_channel_attrs push_client_id reset
session4 y z x = refl

xid_reclaim : (c : Client) → (finish (reclaim_request c)).c.xid ≡ (c.xid + 1) % 2 ^ 32
unfolding finish allocate_rpc push_header leave_opcount push_op push_word push_opaque push_raw
    push_long push_sequence push_session_id first_sequences next_server_sequence push_create_session
    push_channel_attrs push_client_id reset
xid_reclaim c = refl

reverse_reclaim :
    (c : Client) → rpc_buffer (finish (reclaim_request c)) ≡ (finish (reclaim_request c)).c.reverse
unfolding finish allocate_rpc push_header leave_opcount push_op push_word push_opaque push_raw
    push_long push_sequence push_session_id first_sequences next_server_sequence push_create_session
    push_channel_attrs push_client_id reset
reverse_reclaim c = refl

reclaims12 : (y z x : Buffer) → Ahead x filler → Reclaims machine12 9 (state4 y z x)
reclaims12 y z x a =
    let (low, high) = room x a in
    let c = client4 y z x in
    let ps = op op_reclaim_complete ∷ word 0 ∷ [] in
    record {
      rest = filler;
      after = [];
      answered =
          answer_to-Answered 13 (reclaim_request c) op_reclaim_complete filler []
            (omega (arith, xid_reclaim c, xid4 y z x)) (reverse_reclaim c)
            (build-IsValid c (sequence_pieces c ps) (reclaim_request c) (reclaim_built c) low high (
              sequence_fits c ps (ap (λ (xs : List ℕ). length xs) (session4 y z x))
                (unfold be32 in omega arith)))
            (unfold opcode in ((refl, omega arith, refl), refl, (tt, refl, tt)))
            (unfold be32 in omega arith) (omega arith);
    }

sets_up12 : SetsUp machine12 9 1 start12
unfolding exchange_id connects12 identifies12 grants12 finds_root12
sets_up12 =
    let e1 = ap (λ r. r.1) (nfs4_connect-Connects machine12 9 start12 connects12) in
    let (y, f2, a2) = exchange_id-Identifies machine12 9 state1 identifies12 in
    let e2 = ap (λ s. (exchange_id machine12 9 s).1) e1 ∙ ap (λ r. r.1) f2 in
    let (z, f3, a3) = create_session-Grants machine12 9 1 (state2 y) (grants12 y a2) in
    let e3 =
      ap (λ s. (create_session machine12 9 (transact machine12 9 2) s).1) e2 ∙ ap (λ r. r.1) f3 in
    let (x, f4, a4) = get_root_fh-FindsRoot machine12 9 (state3 y z) (finds_root12 y z a3) in
    let e4 = ap (λ s. (get_root_fh machine12 9 s).1) e3 ∙ ap (λ r. r.1) f4 in
    record {
      connects = connects12;
      identifies = subst (Identifies machine12 9) (sym e1) identifies12;
      grants = subst (Grants machine12 9) (sym e2) (grants12 y a2);
      finds_root = subst (FindsRoot machine12 9) (sym e3) (finds_root12 y z a3);
      reclaims = subst (Reclaims machine12 9) (sym e4) (reclaims12 y z x a4);
    }

rpc_connection-SetsUp_example :
    (s' : Sys (List (List ℕ))) × (rpc_connection machine12 9 (transact machine12 9 2) start12
      ≡ (ok tt, s'))
    × (session_state s'.client ≡ record {
      clientid = replicate 8 7;
      server_sequence = 6;
      session = sets_up12.grants.granted.session;
      sequence = 3;
      maxreq = min start12.client.maxreq sets_up12.grants.granted.maxreq;
      maxresp = min start12.client.maxresp sets_up12.grants.granted.maxresp;
      maxops = min start12.client.maxops sets_up12.grants.granted.maxops;
      maxreqs = min start12.client.maxreqs sets_up12.grants.granted.maxreqs;
      root_filehandle_len = length sets_up12.finds_root.handle;
      root_filehandle =
          sets_up12.finds_root.handle
          ++ drop (length sets_up12.finds_root.handle) start12.client.root_filehandle;
    })
unfolding sets_up12
rpc_connection-SetsUp_example = rpc_connection-SetsUp machine12 9 1 start12 sets_up12
