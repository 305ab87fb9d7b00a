-- ===== src/Tests/Sizes.antt =====
-- A file whose size is asked for.
use ssqlite.Prelude.{ℕ, ◌<◌, ◌≤◌, ◌^◌, ◌≡◌, refl, ap, List, [], ◌∷◌, ◌++◌, some, arith}
use ssqlite.Buffer.{Buffer, allocate_buffer, buffer_length}
use ssqlite.Protocol.Ops.{opcode, op_getattr, fattr_size}
use ssqlite.Protocol.Attributes.{size}
use ssqlite.Rpc.Config.{config_boolean}
use ssqlite.Rpc.Request.{finish, allocate_rpc, push_header, leave_opcount, reset}
use ssqlite.Rpc.Session.{file_rpc}
use ssqlite.Rpc.Reply.Scan.{AllPassed}
use ssqlite.Xdr.Push.{
  push_sequence, push_session_id, push_word, push_opaque, push_fixed, push_op, push_raw,
}
use ssqlite.Xdr.At.{at_buffer}
use ssqlite.Xdr.Pieces.{word, bytes_of}
use ssqlite.Xdr.Words.{be32, be64}
use ssqlite.File.Access.{file_size}
use ssqlite.File.Sizing.{size_request, xdr_bitmap, file_size-be64}
use ssqlite.System.{Sys, Machine, Rpc, rpc_buffer, get_buffer, to_reverse, ok}
use ssqlite.Tests.Data.{next_piece, machine7, sys7, client7, file7}
use ssqlite.Tests.Exchanges.{passed8}
use ssqlite.Tests.Opens.{machine_of}
use ssqlite.Tests.Answers.{pieces_of, answered}

abbrev sized : Machine (List (List ℕ)) → Rpc
sized m = size_request m client7 file7

count_size : ℕ
count_size = buffer_length (rpc_buffer (finish (sized (machine7 next_piece))))

abbrev machine12 : Machine (List (List ℕ))
machine12 = machine_of count_size

same_size : count_size ≡ buffer_length (rpc_buffer (finish (sized machine12)))
unfolding count_size file_rpc config_boolean
same_size = refl

xid_size : (finish (sized machine12)).c.xid < 2 ^ 32
unfolding finish file_rpc config_boolean allocate_rpc push_header push_sequence push_session_id
    push_word push_opaque push_fixed push_op push_raw leave_opcount reset
xid_size = omega arith

capacity_size : (get_buffer to_reverse (finish (sized machine12)).c).capacity ≤ 2 ^ 31
unfolding finish file_rpc config_boolean allocate_rpc push_header push_sequence push_session_id
    push_word push_opaque push_fixed push_op push_raw leave_opcount reset allocate_buffer
capacity_size = omega arith

passed_size : AllPassed (opcode op_getattr) passed8
unfolding opcode
passed_size = ((refl, omega arith, refl), refl, (tt, refl, tt))

-- The bitmap of SIZE and the length of the values.
abbrev size_front : List ℕ
size_front = be32 1 ++ (be32 (2 ^ 4) ++ be32 8)

abbrev size_state : Sys (List (List ℕ))
size_state = sys7 (pieces_of (sized machine12) op_getattr (size_front ++ be64 5000000000) [])

file_size-be64_example :
    (bytes_of (word 1 ∷ word (2 ^ fattr_size) ∷ []) ≡ xdr_bitmap (size ∷ []))
    × ((y : Buffer) × (file_size machine12 9 2 file7 size_state ≡ (
      ok 5000000000,
      at_buffer to_reverse y (record (sys7 []) { client = (finish (sized machine12)).c }),
    )))
file_size-be64_example =
    file_size-be64 machine12 9 1 file7 size_state [] 5000000000 size_front (omega arith) (
      answered (λ fd xs w. (some count_size, w)) (sized machine12) op_getattr
        (size_front ++ be64 5000000000) [] passed_size (unfold be32 be64 in omega arith)
        (ap (λ n. (some n, size_state.world)) same_size) capacity_size xid_size)
