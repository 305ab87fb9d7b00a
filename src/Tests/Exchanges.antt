-- ===== src/Tests/Exchanges.antt =====
-- Requests that are answered.
use mathlib.Core.Path.{subst}
use ssqlite.Tests.Requests.{request_out}
use ssqlite.Prelude.{
  String, ℕ, sym, ◌≡◌, refl, List, [], ◌∷◌, ◌++◌, Option, none, some, arith, length, replicate,
}
use ssqlite.Buffer.{Buffer, allocate_buffer, buffer_length}
use ssqlite.Protocol.Ops.{opcode, op_getfh}
use ssqlite.Protocol.Status.{codestring, nfsstatus}
use ssqlite.Xdr.Words.{be32}
use ssqlite.Xdr.Decode.{Ahead}
use ssqlite.Xdr.At.{at_buffer}
use ssqlite.Rpc.Request.{finish}
use ssqlite.Rpc.Finish.{record_mark}
use ssqlite.Rpc.Exchange.{Replies, Comes}
use ssqlite.Rpc.Reply.Header.{words, reply_words}
use ssqlite.Rpc.Reply.Scan.{Passed, sequence, putrootfh}
use ssqlite.Rpc.Session.{transact}
use ssqlite.Rpc.Transact.{reply, Answered}
use ssqlite.Rpc.Recovery.{transact-Answered, transact-Refused}
use ssqlite.System.{Machine, to_reverse, ok, fail}
use ssqlite.Tests.Data.{taking, piece-Comes, sys7}

-- With nothing to read, `write` fails; else it takes all bytes.
abbrev all_or_none : ℕ → List ℕ → List (List ℕ) → Option ℕ × List (List ℕ)
all_or_none fd xs [] = (none, [])
all_or_none fd xs (piece ∷ pieces) = (some (length xs), piece ∷ pieces)

abbrev machine8 : Machine (List (List ℕ))
machine8 = taking all_or_none

abbrev pub passed8 : List Passed
passed8 = sequence (replicate 16 5) 4 (replicate 16 0) ∷ putrootfh ∷ []

-- The results of SEQUENCE and PUTROOTFH, then a file handle of four bytes, and what it looks like
-- with the status before it.
abbrev handle8 : List ℕ
handle8 = be32 4 ++ (1 ∷ 2 ∷ 3 ∷ 4 ∷ [])

abbrev answer8 : List ℕ
answer8 = reply 9 0 3 passed8 op_getfh 0 handle8

-- The record mark comes in two pieces, the answer in one.
abbrev pieces8 : List ℕ → List (List ℕ)
pieces8 xs = (0x80 ∷ []) ∷ (0 ∷ 0 ∷ 104 ∷ []) ∷ xs ∷ []

mark8 : (body : List ℕ) → Comes machine8 3 9 (record_mark 104) (pieces8 body) (body ∷ [])
unfolding be32
mark8 body = record {
  pieces = (0x80 ∷ []) ∷ (0 ∷ 0 ∷ 104 ∷ []) ∷ [];
  delivered = (_, refl, (_, refl, refl));
  just_enough = (omega arith, (omega arith, omega arith));
  whole = refl;
  few = omega arith;
}

replies8 :
    (body : List ℕ) → length body ≡ 104 → Replies machine8 9 request_out body (pieces8 body) []
unfolding finish buffer_length be32
replies8 body h = record {
  after_write = pieces8 body;
  after_head = body ∷ [];
  written = refl;
  head_comes =
      subst (λ n. Comes machine8 3 9 (record_mark n) (pieces8 body) (body ∷ [])) (sym h)
        (mark8 body);
  body_comes = piece-Comes body (omega arith);
  fits = omega arith;
}

answered8 : Answered machine8 9 request_out op_getfh to_reverse handle8 (pieces8 answer8) []
unfolding allocate_buffer finish
answered8 = record {
  count = 3;
  before = passed8;
  replies = replies8 answer8 (unfold be32 opcode in refl);
  capacity_small = omega arith;
  xid_small = omega arith;
  count_small = omega arith;
  few = omega arith;
  all_passed = unfold opcode in ((refl, omega arith, refl), refl, (tt, refl, tt));
}

transact-Answered_example :
    (y : Buffer) × (transact machine8 9 2 request_out op_getfh to_reverse (sys7 (pieces8 answer8))
      ≡ (ok tt, at_buffer to_reverse y (record (sys7 []) { client = (finish request_out).c })))
    × Ahead y handle8
transact-Answered_example =
    transact-Answered machine8 9 1 request_out op_getfh to_reverse (sys7 (pieces8 answer8)) []
      handle8 answered8

abbrev refused8 : List ℕ
refused8 = words (reply_words 9 10008) (replicate 76 0)

transact-Refused_example :
    (text : String) × (codestring nfsstatus 10008 ≡ some text)
    × ((y : Buffer) × (transact machine8 9 2 request_out op_getfh to_reverse
            (sys7 (pieces8 refused8))
          ≡ (
            fail text,
            at_buffer to_reverse y (record (sys7 []) { client = (finish request_out).c }),
          )))
unfolding finish allocate_buffer
transact-Refused_example =
    transact-Refused machine8 9 1 request_out op_getfh to_reverse (sys7 (pieces8 refused8)) [] 10008
      (record {
        rest = replicate 76 0;
        replies = replies8 refused8 (unfold be32 in refl);
        capacity_small = omega arith;
        xid_small = omega arith;
        status_small = omega arith;
        nonzero = λ e. omega (arith, e);
      })
      refl
