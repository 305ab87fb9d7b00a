-- ===== src/Tests/Grants.antt =====
-- A client that is identified asks for a session, the root and the reclaim.
use ssqlite.Prelude.{ℕ, ◌+◌, ◌-◌, ◌*◌, ◌%◌, ◌≤◌, ◌^◌, ◌≡◌, refl, ap, List, [], ◌∷◌, arith, length}
use ssqlite.Prelude.Memory.{length-slice}
use ssqlite.Buffer.{Buffer}
use ssqlite.Protocol.Ops.{
  opcode, op_create_session, op_getfh, op_reclaim_complete, op_putrootfh, op_sequence,
}
use ssqlite.Rpc.Request.{finish, allocate_rpc, push_header, leave_opcount, reset}
use ssqlite.Rpc.Session.{first_sequences, next_server_sequence}
use ssqlite.Rpc.Transact.{Answered}
use ssqlite.Rpc.Setup.{Grants, session_request, root_request, reclaim_request}
use ssqlite.Xdr.Push.{
  push_sequence, push_session_id, push_word, push_long, push_opaque, push_op, push_raw,
  push_create_session, push_channel_attrs, push_client_id,
}
use ssqlite.Xdr.Pieces.{Piece, word, raw, op, bump, build}
use ssqlite.Xdr.Decode.{Ahead}
use ssqlite.Xdr.Limits.{granted_bytes}
use ssqlite.Xdr.Words.{be32, be64}
use ssqlite.System.{Client, rpc_buffer, to_reverse}
use ssqlite.Tests.Whole.{machine12, build-IsValid, answer_to-Answered}
use ssqlite.Tests.Sessions.{filler, grant12, pieces3, pieces2, client2, state2}

abbrev channel_pieces : Client → List Piece → List Piece
channel_pieces c ps =
    word 0
    ∷ word c.maxreq
    ∷ word c.maxresp
    ∷ word (1024 * 1024)
    ∷ word c.maxops
    ∷ word c.maxreqs
    ∷ word 0
    ∷ ps

abbrev session_pieces : Client → List Piece
session_pieces c =
    op op_create_session
    ∷ raw c.clientid
    ∷ word c.server_sequence
    ∷ word 1
    ∷ channel_pieces c (channel_pieces c (word 0x7b ∷ word 1 ∷ word 0 ∷ []))

abbrev pub sequence_pieces : Client → List Piece → List Piece
sequence_pieces c ps =
    op op_sequence ∷ raw c.session ∷ word c.sequence ∷ word 0 ∷ word 0 ∷ word 0 ∷ bump ∷ ps

session_built :
    (c : Client)
    → rpc_buffer (build (session_pieces c) (allocate_rpc c to_reverse))
      ≡ rpc_buffer (session_request c)
unfolding finish allocate_rpc push_header leave_opcount push_op push_word push_opaque push_raw
    push_long push_sequence push_session_id first_sequences next_server_sequence push_create_session
    push_channel_attrs push_client_id reset
session_built c = refl

pub root_built :
    (c : Client)
    → rpc_buffer
        (build (sequence_pieces c (op op_putrootfh ∷ op op_getfh ∷ [])) (allocate_rpc c to_reverse))
      ≡ rpc_buffer (root_request c)
unfolding finish allocate_rpc push_header leave_opcount push_op push_word push_opaque push_raw
    push_long push_sequence push_session_id first_sequences next_server_sequence push_create_session
    push_channel_attrs push_client_id reset
root_built c = refl

pub reclaim_built :
    (c : Client)
    → rpc_buffer (
        build
          (sequence_pieces c (op op_reclaim_complete ∷ word 0 ∷ []))
          (allocate_rpc c to_reverse))
      ≡ rpc_buffer (reclaim_request c)
unfolding finish allocate_rpc push_header leave_opcount push_op push_word push_opaque push_raw
    push_long push_sequence push_session_id first_sequences next_server_sequence push_create_session
    push_channel_attrs push_client_id reset
reclaim_built c = refl

pub room : (y : Buffer) → Ahead y filler → (92 ≤ y.capacity) × (y.capacity ≤ 2 ^ 31)
room y a = omega (
  arith,
  ap (λ (xs : List ℕ). length xs) a.live,
  length-slice y.contents y.start (y.end - y.start),
  a.valid.ordered,
  a.valid.within,
  a.valid.small,
)

xid2 : (y : Buffer) → (client2 y).xid ≡ 10
unfolding finish allocate_rpc push_header leave_opcount push_op push_word push_opaque push_raw
    push_long push_sequence push_session_id first_sequences next_server_sequence push_create_session
    push_channel_attrs push_client_id reset
xid2 y = refl

xid_session : (c : Client) → (finish (session_request c)).c.xid ≡ (c.xid + 1) % 2 ^ 32
unfolding finish allocate_rpc push_header leave_opcount push_op push_word push_opaque push_raw
    push_long push_sequence push_session_id first_sequences next_server_sequence push_create_session
    push_channel_attrs push_client_id reset
xid_session c = refl

reverse_session :
    (c : Client) → rpc_buffer (finish (session_request c)) ≡ (finish (session_request c)).c.reverse
unfolding finish allocate_rpc push_header leave_opcount push_op push_word push_opaque push_raw
    push_long push_sequence push_session_id first_sequences next_server_sequence push_create_session
    push_channel_attrs push_client_id reset
reverse_session c = refl

pub session-Answered :
    (y : Buffer)
    → Ahead y filler
    → Answered machine12 9
        (session_request (client2 y))
        op_create_session
        to_reverse
        (granted_bytes grant12 filler)
        pieces2
        pieces3
session-Answered y a =
    let (low, high) = room y a in
    answer_to-Answered 11 (session_request (client2 y)) op_create_session
      (granted_bytes grant12 filler) pieces3 (omega (arith, xid_session (client2 y), xid2 y))
      (reverse_session (client2 y))
      (build-IsValid (client2 y) (session_pieces (client2 y)) (session_request (client2 y))
        (session_built (client2 y)) low high (unfold be32 be64 opcode in omega arith))
      (unfold opcode in ((refl, omega arith, refl), refl, (tt, refl, tt)))
      (unfold be32 in omega arith) (omega arith)

unfoldable pub grants12 : (y : Buffer) → Ahead y filler → Grants machine12 9 (state2 y)
grants12 y a = record {
  granted = grant12;
  rest = filler;
  after = pieces3;
  answered = session-Answered y a;
  sized = record {
    session_size = refl;
    sequence_small = omega arith;
    flags_small = omega arith;
    header_pad_small = omega arith;
    maxreq_small = omega arith;
    maxresp_small = omega arith;
    cached_small = omega arith;
    maxops_small = omega arith;
    maxreqs_small = omega arith;
    rdma_small = omega arith;
  };
}
