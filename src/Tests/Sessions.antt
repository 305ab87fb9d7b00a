-- ===== src/Tests/Sessions.antt =====
-- A client that connects and is identified.
use ssqlite.Prelude.{ℕ, refl, List, [], ◌∷◌, ◌++◌, arith, replicate}
use ssqlite.Buffer.{Buffer, allocate_buffer}
use ssqlite.Protocol.Ops.{opcode, op_exchange_id, op_create_session, op_getfh, op_reclaim_complete}
use ssqlite.Rpc.Request.{finish, allocate_rpc, push_header, leave_opcount}
use ssqlite.Rpc.Transact.{Answered}
use ssqlite.Rpc.Setup.{identify_request, Connects, Identifies}
use ssqlite.Xdr.Push.{
  push_word, push_long, push_opaque, push_op, push_raw, push_exchange_id, fill_random, codes,
}
use ssqlite.Xdr.Pieces.{Piece, word, long, opaque, raw, op}
use ssqlite.Xdr.Limits.{Granted, granted_bytes}
use ssqlite.Xdr.Words.{be32, be64}
use ssqlite.System.{Client, Sys, Rpc, to_reverse}
use ssqlite.Tests.Data.{sys7, client7}
use ssqlite.Tests.Whole.{machine12, build-IsValid, pieces_to, answer_to-Answered}

-- Bytes behind each result.
abbrev pub filler : List ℕ
filler = replicate 100 0

abbrev pub grant12 : Granted
grant12 = record {
  session = replicate 16 6;
  sequence = 1;
  flags = 0;
  header_pad = 0;
  maxreq = 512;
  maxresp = 4096;
  maxresp_cached = 0;
  maxops = 8;
  maxreqs = 64;
  rdma = 0;
}

abbrev identity12 : List ℕ
identity12 = replicate 8 7 ++ (be32 5 ++ (be32 0 ++ filler))

abbrev pub handle12 : List ℕ
handle12 = 1 ∷ 2 ∷ 3 ∷ 4 ∷ []

abbrev pub root12 : List ℕ
root12 = be32 4 ++ (handle12 ++ filler)

-- What is read for the four answers.
abbrev pub pieces4 : List (List ℕ)
pieces4 = pieces_to 13 op_reclaim_complete filler []

abbrev pub pieces3 : List (List ℕ)
pieces3 = pieces_to 12 op_getfh root12 pieces4

abbrev pub pieces2 : List (List ℕ)
pieces2 = pieces_to 11 op_create_session (granted_bytes grant12 filler) pieces3

abbrev pieces1 : List (List ℕ)
pieces1 = pieces_to 10 op_exchange_id identity12 pieces2

abbrev pub start12 : Sys (List (List ℕ))
start12 = sys7 pieces1

-- Connected.
abbrev client1 : Client
client1 = record client7 { address = []; fd = 3 }

abbrev pub state1 : Sys (List (List ℕ))
state1 = record start12 { client = client1 }

unfoldable pub connects12 : Connects machine12 9 start12
connects12 = record {
  address = [];
  fd = 3;
  found = pieces1;
  dialed = pieces1;
  resolved = refl;
  connected = refl;
}

-- The request of EXCHANGE_ID as it is built, with the characters that `rand` gives.
abbrev exchange_pieces : List Piece
exchange_pieces =
    op op_exchange_id
    ∷ raw (replicate 8 2)
    ∷ opaque (replicate 16 b'2')
    ∷ word 0
    ∷ word 0
    ∷ word 1
    ∷ opaque (codes "edu.berkeley")
    ∷ opaque (codes "NFS for Serverless v. 0.1-snapshot")
    ∷ long 0
    ∷ word 0
    ∷ []

abbrev exchange_request : Rpc
exchange_request = identify_request client1 (replicate 16 b'2')

pub exchange-Answered :
    Answered machine12 9 exchange_request op_exchange_id to_reverse identity12 pieces1 pieces2
unfolding allocate_buffer push_exchange_id fill_random allocate_rpc push_header leave_opcount
    push_op push_word push_opaque push_raw push_long finish
exchange-Answered =
    answer_to-Answered 10 exchange_request op_exchange_id identity12 pieces2 refl refl
      (build-IsValid client1 exchange_pieces exchange_request refl (omega arith) (omega arith)
        (unfold be32 be64 opcode in omega arith))
      (unfold opcode in ((refl, omega arith, refl), refl, (tt, refl, tt)))
      (unfold be32 in omega arith) (omega arith)

unfoldable pub identifies12 : Identifies machine12 9 state1
unfolding allocate_buffer push_exchange_id fill_random allocate_rpc push_header leave_opcount
    push_op push_word push_opaque push_raw push_long finish
identifies12 = record {
  owner = replicate 16 b'2';
  built_in = pieces1;
  clientid = replicate 8 7;
  server_sequence = 5;
  flags = 0;
  rest = filler;
  after = pieces2;
  built = refl;
  answered = exchange-Answered;
  clientid_size = refl;
  sequence_small = omega arith;
  flags_small = omega arith;
}

-- The client identified, with `y` in the place of the reply.
abbrev pub client2 : Buffer → Client
client2 y = record (finish exchange_request).c {
  clientid = replicate 8 7;
  server_sequence = 5;
  reverse = y;
}

abbrev pub state2 : Buffer → Sys (List (List ℕ))
state2 y = record start12 { client = client2 y; world = pieces2 }
