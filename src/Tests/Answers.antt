-- ===== src/Tests/Answers.antt =====
-- A request that is answered with the results of SEQUENCE, PUTROOTFH and one more operation.
use ssqlite.Prelude.{ℕ, ◌<◌, ◌≤◌, ◌^◌, ◌≡◌, List, ◌∷◌, Option, some, arith, length}
use ssqlite.Buffer.{bytes, buffer_length}
use ssqlite.Protocol.Ops.{OpNum, opcode}
use ssqlite.Rpc.Request.{finish}
use ssqlite.Rpc.Finish.{record_mark}
use ssqlite.Rpc.Reply.Scan.{AllPassed}
use ssqlite.Rpc.Transact.{reply, Answered}
use ssqlite.Xdr.Words.{be32}
use ssqlite.System.{Rpc, rpc_buffer, get_buffer, to_reverse}
use ssqlite.Tests.Data.{taking, piece-Comes}
use ssqlite.Tests.Exchanges.{passed8}

-- The answer, and what is read for it, in two pieces.
abbrev pub answer_of : Rpc → OpNum → List ℕ → List ℕ
answer_of r op rest = reply (finish r).c.xid 0 3 passed8 op 0 rest

abbrev pub pieces_of : Rpc → OpNum → List ℕ → List (List ℕ) → List (List ℕ)
pieces_of r op rest w = record_mark (length (answer_of r op rest)) ∷ answer_of r op rest ∷ w

pub answered :
    (write : ℕ → List ℕ → List (List ℕ) → Option ℕ × List (List ℕ)) (r : Rpc) (op : OpNum)
    (rest : List ℕ) (w : List (List ℕ))
    → AllPassed (opcode op) passed8
    → length rest ≤ 1000
    → write (finish r).c.fd (bytes (rpc_buffer (finish r))) (pieces_of r op rest w)
      ≡ (some (buffer_length (rpc_buffer (finish r))), pieces_of r op rest w)
    → (get_buffer to_reverse (finish r).c).capacity ≤ 2 ^ 31
    → (finish r).c.xid < 2 ^ 32
    → Answered (taking write) 9 r op to_reverse rest (pieces_of r op rest w) w
answered write r op rest w passed short written capacity_small xid_small = record {
  count = 3;
  before = passed8;
  replies = record {
    after_write = pieces_of r op rest w;
    after_head = answer_of r op rest ∷ w;
    written = written;
    head_comes =
        piece-Comes (record_mark (length (answer_of r op rest))) (unfold be32 in omega arith);
    body_comes = piece-Comes (answer_of r op rest) (unfold be32 in omega arith);
    fits = unfold be32 in omega (arith, short);
  };
  capacity_small = capacity_small;
  xid_small = xid_small;
  count_small = omega arith;
  few = omega arith;
  all_passed = passed;
}
