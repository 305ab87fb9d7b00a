-- ===== src/Tests/Whole.antt =====
-- A machine that takes each request whole, and what answers it.
use mathlib.Core.Path.{subst}
use ssqlite.Prelude.{
  ℕ, ◌+◌, ◌-◌, ◌%◌, ◌<◌, ◌≤◌, ◌^◌, ◌≡◌, sym, ap, List, ◌∷◌, some, arith, length, length-append,
}
use ssqlite.Prelude.Memory.{length-slice}
use ssqlite.Buffer.{Buffer, buffer_length, bytes}
use ssqlite.Buffer.Growth.{IsValid, limit, Holds}
use ssqlite.Protocol.Ops.{OpNum, opcode}
use ssqlite.Rpc.Finish.{record_mark}
use ssqlite.Rpc.Image.{header, length-header, allocate_rpc-Holds}
use ssqlite.Rpc.Request.{finish, allocate_rpc}
use ssqlite.Rpc.Reply.Scan.{AllPassed}
use ssqlite.Rpc.Transact.{reply, Answered}
use ssqlite.Rpc.Exchange.{Replies}
use ssqlite.Xdr.Pieces.{Piece, build, bytes_of, build-Holds}
use ssqlite.Xdr.At.{get-set}
use ssqlite.Xdr.Words.{be32}
use ssqlite.System.{Client, Machine, Rpc, rpc_buffer, to_reverse}
use ssqlite.Tests.Data.{taking, piece-Comes}
use ssqlite.Tests.Exchanges.{passed8}

-- Each request is taken whole.
abbrev pub machine12 : Machine (List (List ℕ))
machine12 = taking (λ fd xs w. (some (length xs), w))

length-bytes : (b : Buffer) → IsValid b → length (bytes b) ≡ buffer_length b
unfolding buffer_length
length-bytes b v =
    omega (arith, length-slice b.contents b.start (b.end - b.start), v.ordered, v.within, v.small)

finish-IsValid : (r : Rpc) → IsValid (rpc_buffer r) → IsValid (rpc_buffer (finish r))
unfolding finish
finish-IsValid r v =
    subst IsValid (sym (get-set r.b _ r.c))
      (record { ordered = v.ordered; within = v.within; small = v.small })

pub build-IsValid :
    (c : Client) (ps : List Piece) (r : Rpc)
    → rpc_buffer (build ps (allocate_rpc c to_reverse)) ≡ rpc_buffer r
    → 92 ≤ c.reverse.capacity
    → c.reverse.capacity ≤ 2 ^ 31
    → length (bytes_of ps) + 100 ≤ limit
    → IsValid (rpc_buffer (finish r))
build-IsValid c ps r e low high fits =
    let (slot, held, four, place) = allocate_rpc-Holds c to_reverse low high in
    let all : Holds (rpc_buffer (build ps (allocate_rpc c to_reverse))) _ =
      build-Holds ps (allocate_rpc c to_reverse) _ held (
        omega (
          arith,
          four,
          length-append (header ((c.xid + 1) % 2 ^ 32)) slot,
          length-header ((c.xid + 1) % 2 ^ 32),
        )) in
    finish-IsValid r (subst IsValid e all.valid)

-- The answer to the call `xid`, and what is read for it.
abbrev answer_to : ℕ → OpNum → List ℕ → List ℕ
answer_to xid o rest = reply xid 0 3 passed8 o 0 rest

abbrev pub pieces_to : ℕ → OpNum → List ℕ → List (List ℕ) → List (List ℕ)
pieces_to xid o rest w = record_mark (length (answer_to xid o rest)) ∷ answer_to xid o rest ∷ w

pub answer_to-Answered :
    (xid : ℕ) (r : Rpc) (o : OpNum) (rest : List ℕ) (w : List (List ℕ))
    → (finish r).c.xid ≡ xid
    → rpc_buffer (finish r) ≡ (finish r).c.reverse
    → IsValid (rpc_buffer (finish r))
    → AllPassed (opcode o) passed8
    → length rest ≤ 1000
    → xid < 2 ^ 32
    → Answered machine12 9 r o to_reverse rest (pieces_to xid o rest w) w
answer_to-Answered xid r o rest w same reverse valid passed short small = record {
  count = 3;
  before = passed8;
  replies =
      subst
        (λ (i : ℕ). Replies machine12 9 r (reply i 0 3 passed8 o 0 rest) (pieces_to xid o rest w) w)
        (sym same)
        (record {
          after_write = pieces_to xid o rest w;
          after_head = answer_to xid o rest ∷ w;
          written = ap (λ n. (some n, pieces_to xid o rest w)) (length-bytes _ valid);
          head_comes =
              piece-Comes (record_mark (length (answer_to xid o rest)))
                (unfold be32 in omega arith);
          body_comes = piece-Comes (answer_to xid o rest) (unfold be32 in omega arith);
          fits = unfold be32 in omega (arith, short);
        });
  capacity_small = omega (arith, ap (λ (b : Buffer). b.capacity) reverse, valid.small);
  xid_small = omega (arith, same, small);
  count_small = omega arith;
  few = omega arith;
  all_passed = passed;
}
