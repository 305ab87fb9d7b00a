-- ===== src/Tests/Stores.antt =====
-- Bytes that are written, and read back.
use mathlib.Core.Path.{subst}
use ssqlite.Prelude.{
  ℕ, ◌<◌, ◌≤◌, ◌^◌, ◌≡◌, refl, sym, ap, ◌∙◌, List, [], ◌∷◌, some, arith, length, append-nil, ltb,
  if◌then◌else◌,
}
use ssqlite.Prelude.Memory.{Block, slice, memcpy}
use ssqlite.Buffer.{Buffer, allocate_buffer, buffer_length}
use ssqlite.Protocol.Ops.{opcode, op_read, op_write}
use ssqlite.Rpc.Config.{config_boolean}
use ssqlite.Rpc.Request.{finish, allocate_rpc, push_header, leave_opcount, reset}
use ssqlite.Rpc.Session.{file_rpc}
use ssqlite.Rpc.Transact.{Answered}
use ssqlite.Xdr.Push.{
  push_sequence, push_session_id, push_word, push_long, push_opaque, push_fixed, push_stateid,
  push_op, push_raw,
}
use ssqlite.Xdr.Words.{be32}
use ssqlite.File.Segment.Chunks.{chunks}
use ssqlite.File.Filled.{Filled}
use ssqlite.File.Written.{Stored, StoresAll, write_chunk_short_succeeds, writefile-Filled}
use ssqlite.File.Access.{write_chunk, writefile}
use ssqlite.File.Reading.{read_request, read_result}
use ssqlite.File.Requests.{write_request}
use ssqlite.System.{Client, Sys, Machine, Rpc, rpc_buffer, get_buffer, set_buffer, to_reverse, ok}
use ssqlite.Tests.Data.{next_piece, taking, machine7, sys7, client7, file7}
use ssqlite.Rpc.Reply.Scan.{AllPassed}
use ssqlite.Tests.Exchanges.{passed8}
use ssqlite.Tests.Answers.{pieces_of, answered}

-- The client's memory has the byte `j` at each address `j`; two bytes from 60 on are written.
abbrev pub two : List ℕ
two = 60 ∷ 61 ∷ []

abbrev pub write_of : Machine (List (List ℕ)) → Rpc
write_of m = write_request m client7 file7 100 two

-- The request to read that the client `c` makes after the write, and the client then, with the
-- buffer of the reply in its place.
abbrev pub read_back : Machine (List (List ℕ)) → Client → Rpc
read_back m c = read_request m c file7 100 2

abbrev pub written_client : Machine (List (List ℕ)) → Buffer → Client
written_client m y = set_buffer to_reverse y (finish (write_of m)).c

-- The machine takes each request whole: that of the write while there is more than one answer to
-- come.
abbrev pub machine_of : ℕ → ℕ → Machine (List (List ℕ))
machine_of n k = taking (λ fd xs w. (some (if ltb 2 (length w) then n else k), w))

unfoldable pub count_written : ℕ
count_written = buffer_length (rpc_buffer (finish (write_of (machine7 next_piece))))

unfoldable pub count_read : ℕ
count_read = buffer_length (
    rpc_buffer
      (finish (read_back (machine7 next_piece) (finish (write_of (machine7 next_piece))).c)))

abbrev pub machine10 : Machine (List (List ℕ))
machine10 = machine_of count_written count_read

same_written : count_written ≡ buffer_length (rpc_buffer (finish (write_of machine10)))
unfolding count_written file_rpc config_boolean
same_written = refl

-- The request to read does not depend on the buffer of the reply before it.
forward_read :
    (n k : ℕ) (c : Client) (y : Buffer)
    → rpc_buffer (finish (read_back (machine_of n k) (set_buffer to_reverse y c)))
      ≡ rpc_buffer (finish (read_back (machine_of n k) c))
unfolding finish file_rpc config_boolean allocate_rpc push_header push_sequence push_session_id
    push_word push_long push_opaque push_fixed push_stateid push_op push_raw leave_opcount reset
forward_read n k c y = refl

same_read_back :
    count_read
    ≡ buffer_length (rpc_buffer (finish (read_back machine10 (finish (write_of machine10)).c)))
unfolding count_read file_rpc config_boolean
same_read_back = refl

pub same_read :
    (y : Buffer)
    → count_read
      ≡ buffer_length (rpc_buffer (finish (read_back machine10 (written_client machine10 y))))
same_read y =
    same_read_back
    ∙ ap buffer_length
        (sym (forward_read count_written count_read (finish (write_of machine10)).c y))

xid_write : (finish (write_of machine10)).c.xid < 2 ^ 32
unfolding finish file_rpc config_boolean allocate_rpc push_header push_sequence push_session_id
    push_word push_long push_opaque push_fixed push_stateid push_op push_raw leave_opcount reset
xid_write = omega arith

capacity_write : (get_buffer to_reverse (finish (write_of machine10)).c).capacity ≤ 2 ^ 31
unfolding finish file_rpc config_boolean allocate_rpc push_header push_sequence push_session_id
    push_word push_long push_opaque push_fixed push_stateid push_op push_raw leave_opcount reset
    allocate_buffer
capacity_write = omega arith

pub maxresp_written : (y : Buffer) → (written_client machine10 y).maxresp ≡ 1024
unfolding finish file_rpc config_boolean allocate_rpc push_header push_sequence push_session_id
    push_word push_long push_opaque push_fixed push_stateid push_op push_raw leave_opcount reset
maxresp_written y = refl

pub xid_read :
    (y : Buffer) → (finish (read_back machine10 (written_client machine10 y))).c.xid < 2 ^ 32
unfolding finish file_rpc config_boolean allocate_rpc push_header push_sequence push_session_id
    push_word push_long push_opaque push_fixed push_stateid push_op push_raw leave_opcount reset
xid_read y = omega arith

pub reverse_read :
    (y : Buffer) → (finish (read_back machine10 (written_client machine10 y))).c.reverse ≡ y
unfolding finish file_rpc config_boolean allocate_rpc push_header push_sequence push_session_id
    push_word push_long push_opaque push_fixed push_stateid push_op push_raw leave_opcount reset
reverse_read y = refl

-- The answers: that to the write says that `count` bytes were stored. The server has them from
-- then on.
abbrev pub read_pieces : List (List ℕ)
read_pieces =
    pieces_of (read_back machine10 (finish (write_of machine10)).c) op_read (read_result 0 two [])
      []

abbrev all_pieces : ℕ → List (List ℕ)
all_pieces count = pieces_of (write_of machine10) op_write (be32 count) read_pieces

abbrev pub disk_of : List ℕ → List (List ℕ) → Block
disk_of xs w = memcpy (λ j. 0) 100 (if ltb 2 (length w) then [] else xs)

abbrev pub state_of : ℕ → Sys (List (List ℕ))
state_of count = record (sys7 (all_pieces count)) { memory = λ j. j }

passed_write : AllPassed (opcode op_write) passed8
unfolding opcode
passed_write = ((refl, omega arith, refl), refl, (tt, refl, tt))

pub passed_read : AllPassed (opcode op_read) passed8
unfolding opcode
passed_read = ((refl, omega arith, refl), refl, (tt, refl, tt))

unfoldable pub stored10 :
    (count : ℕ)
    → Stored machine10 9 1 file7 (disk_of (slice (λ j. j) 60 count)) 60 100 2 count (state_of count)
unfolding passed_write same_written capacity_write xid_write be32
stored10 count = record {
  rest = [];
  after = read_pieces;
  answered =
      subst
        (λ (xs : List ℕ).
          Answered machine10 9 (write_of machine10) op_write to_reverse xs (all_pieces count)
            read_pieces)
        (sym (append-nil (be32 count)))
        (answered (λ fd xs w. (some (if ltb 2 (length w) then count_written else count_read), w))
          (write_of machine10) op_write (be32 count) read_pieces passed_write (omega arith)
          (ap (λ n. (some n, all_pieces count)) same_written) capacity_write xid_write);
  stored = refl;
}

write_chunk_short_succeeds_example :
    (s' : Sys (List (List ℕ))) × (write_chunk machine10 9 2 file7 60 100 2 (state_of 1)
      ≡ (ok tt, s'))
    × (slice (disk_of (60 ∷ []) s'.world) 101 1 ≡ 0 ∷ [])
write_chunk_short_succeeds_example =
    write_chunk_short_succeeds machine10 9 1 file7 (disk_of (60 ∷ [])) 60 100 2 1 (state_of 1)
      (omega arith) (stored10 1)

pub stores10 : StoresAll machine10 9 1 file7 (disk_of two) 60 100 (chunks 2 1024 0 2) (state_of 2)
unfolding chunks
stores10 = (stored10 2, tt)

writefile-Filled_example :
    (s' : Sys (List (List ℕ))) × (writefile machine10 9 2 3 file7 60 100 2 (state_of 2)
      ≡ (ok tt, s'))
    × (s'.memory ≡ (λ j. j))
    × Filled (λ j. 0) (disk_of two s'.world) 100 two
writefile-Filled_example =
    writefile-Filled machine10 9 1 file7 (disk_of two) 3 60 100 2 (state_of 2) (omega arith)
      (omega arith) (omega arith) (omega arith) stores10
