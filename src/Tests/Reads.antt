-- ===== src/Tests/Reads.antt =====
-- A chunk that is read.
use ssqlite.Prelude.{
  length-append, ℕ, ap, ◌<◌, ◌≤◌, ◌^◌, ◌≡◌, refl, List, [], ◌∷◌, some, arith, length,
}
use ssqlite.Prelude.Memory.{memcpy}
use ssqlite.Buffer.{Buffer, allocate_buffer, buffer_length}
use ssqlite.Protocol.Ops.{opcode, op_read}
use ssqlite.Rpc.Config.{config_boolean}
use ssqlite.Rpc.Request.{finish, allocate_rpc, push_header, leave_opcount, reset}
use ssqlite.Rpc.Transact.{Answered}
use ssqlite.Rpc.Session.{file_rpc}
use ssqlite.Xdr.Push.{
  push_sequence, push_session_id, push_word, push_long, push_opaque, push_fixed, push_stateid,
  push_op, push_raw,
}
use ssqlite.Xdr.At.{at_buffer}
use ssqlite.Xdr.Words.{be32}
use ssqlite.Prelude.Memory.{Block}
use ssqlite.File.Segment.Chunks.{chunks}
use ssqlite.File.Filled.{Filled}
use ssqlite.File.Whole.{Served, readfile-Filled}
use ssqlite.File.Access.{read_chunk, readfile}
use ssqlite.File.Reading.{read_request, read_result, read_chunk-memcpy}
use ssqlite.System.{Sys, Machine, Rpc, rpc_buffer, get_buffer, to_reverse, ok}
use ssqlite.Tests.Data.{next_piece, taking, machine7, sys7, client7, file7}
use ssqlite.Tests.Answers.{pieces_of, answered}

abbrev request9 : Rpc
request9 = read_request (machine7 next_piece) client7 file7 0 2

-- `write` takes as many bytes as the request has.
abbrev machine9 : Machine (List (List ℕ))
machine9 = taking (λ fd xs w. (some (buffer_length (rpc_buffer (finish request9))), w))

-- Two bytes were asked for, four come.
abbrev content9 : List ℕ
content9 = 11 ∷ 12 ∷ 13 ∷ 14 ∷ []

abbrev pieces9 : List ℕ → Rpc → List (List ℕ)
pieces9 content r = pieces_of r op_read (read_result 0 content []) []

answered9 :
    (content : List ℕ) (r : Rpc) (count : ℕ)
    → length content ≤ 4
    → count ≡ buffer_length (rpc_buffer (finish r))
    → (get_buffer to_reverse (finish r).c).capacity ≤ 2 ^ 31
    → (finish r).c.xid < 2 ^ 32
    → Answered
        (taking (λ fd xs w. (some count, w)))
        9
        r
        op_read
        to_reverse
        (read_result 0 content [])
        (pieces9 content r)
        []
answered9 content r count short e capacity_small xid_small =
    answered (λ fd xs w. (some count, w)) r op_read (read_result 0 content []) []
      (unfold opcode in ((refl, omega arith, refl), refl, (tt, refl, tt)))
      (unfold be32 in omega (arith, short, length-append content []))
      (ap (λ n. (some n, pieces9 content r)) e) capacity_small xid_small

same_count :
    buffer_length (rpc_buffer (finish request9))
    ≡ buffer_length (rpc_buffer (finish (read_request machine9 client7 file7 0 2)))
unfolding file_rpc config_boolean
same_count = refl

xid9 : (finish (read_request machine9 client7 file7 0 2)).c.xid < 2 ^ 32
unfolding finish file_rpc config_boolean allocate_rpc push_header push_sequence push_session_id
    push_word push_long push_opaque push_fixed push_stateid push_op push_raw leave_opcount reset
xid9 = omega arith

capacity9 :
    (get_buffer to_reverse (finish (read_request machine9 client7 file7 0 2)).c).capacity ≤ 2 ^ 31
unfolding finish file_rpc config_boolean allocate_rpc push_header push_sequence push_session_id
    push_word push_long push_opaque push_fixed push_stateid push_op push_raw leave_opcount reset
    allocate_buffer
capacity9 = omega arith

read_chunk-memcpy_example :
    (y : Buffer) × (read_chunk machine9 9 2 file7 5 0 2
        (sys7 (pieces9 content9 (read_request machine9 client7 file7 0 2)))
      ≡ (
        ok tt,
        at_buffer to_reverse y (record (sys7 []) {
          client = (finish (read_request machine9 client7 file7 0 2)).c;
          memory = memcpy (λ j. 0) 5 content9;
        }),
      ))
read_chunk-memcpy_example =
    read_chunk-memcpy machine9 9 1 file7 5 0 2
      (sys7 (pieces9 content9 (read_request machine9 client7 file7 0 2))) [] 0 content9 []
      (omega arith) (omega arith)
      (answered9 content9 (read_request machine9 client7 file7 0 2)
        (buffer_length (rpc_buffer (finish request9))) (omega arith) same_count capacity9 xid9)

-- A file that has the byte `j` at each offset `j`; its bytes 0 and 1 are read to the address 5.
abbrev counting_file : Block
counting_file j = j

abbrev read_state : Sys (List (List ℕ))
read_state = sys7 (pieces9 (0 ∷ 1 ∷ []) (read_request machine9 client7 file7 0 2))

served9 : Served machine9 9 1 file7 counting_file 0 2 read_state
served9 = record {
  eof = 0;
  rest = [];
  after = [];
  eof_small = omega arith;
  answered =
      answered9 (0 ∷ 1 ∷ []) (read_request machine9 client7 file7 0 2)
        (buffer_length (rpc_buffer (finish request9))) (omega arith) same_count capacity9 xid9;
}

readfile-Filled_example :
    (s' : Sys (List (List ℕ))) × (readfile machine9 9 2 3 file7 5 0 2 read_state ≡ (ok tt, s'))
    × Filled (λ j. 0) s'.memory 5 (0 ∷ 1 ∷ [])
readfile-Filled_example =
    readfile-Filled machine9 9 1 file7 counting_file 3 5 0 2 read_state (omega arith) (omega arith)
      (omega arith) (omega arith) (unfold chunks in (served9, tt))
