-- ===== src/Tests/Locks.antt =====
-- A file at SHARED that takes RESERVED, and one that gives its lock back.
use ssqlite.Prelude.{ℕ, ◌<◌, ◌≤◌, ◌^◌, ◌≡◌, refl, ap, List, [], ◌∷◌, some, arith}
use ssqlite.Buffer.{allocate_buffer, buffer_length}
use ssqlite.Protocol.Ops.{opcode, op_lock, op_locku}
use ssqlite.Rpc.Config.{config_boolean}
use ssqlite.Rpc.Request.{finish, allocate_rpc, push_header, leave_opcount, reset}
use ssqlite.Rpc.Session.{file_rpc}
use ssqlite.Rpc.Reply.Scan.{AllPassed}
use ssqlite.Rpc.Transact.{Answered}
use ssqlite.Xdr.Push.{
  push_sequence, push_session_id, push_word, push_long, push_flag, push_opaque, push_fixed,
  push_stateid, push_op, push_raw, push_owner, push_client_id, push_bare_sequence,
  push_lock_sequence,
}
use ssqlite.Xdr.Words.{be32}
use ssqlite.Xdr.Opened.{stateid_bytes}
use ssqlite.File.Access.{lock_range, unlock_range}
use ssqlite.File.Ranges.{lock_request, unlock_request}
use ssqlite.System.{Sys, Machine, Rpc, rpc_buffer, get_buffer, to_reverse}
use ssqlite.Vfs.Lock.{unlock, reserved_byte, shared_first, shared_size, no_lock, read_lt, write_lt}
use ssqlite.Vfs.Lock.Held.{Held, claim, free, write, none, shared, reserved, mode_at}
use ssqlite.Vfs.Lock.Exchange.{Conversation, lock_calls, unlock_calls, granted}
use ssqlite.Vfs.Lock.Rules.{Ends, Lowers, at}
use ssqlite.Vfs.Lock.Grant.{unlock-Lowers}
use ssqlite.Tests.Data.{next_piece, machine7, sys7, client7, file7, sql_file7}
use ssqlite.Tests.Exchanges.{passed8}
use ssqlite.Tests.Opens.{machine_of, sid9}
use ssqlite.Tests.Answers.{pieces_of, answered}

abbrev pub reserve_of : Machine (List (List ℕ)) → Rpc
reserve_of m = lock_request m client7 file7 write_lt reserved_byte 1

pub count_reserve : ℕ
count_reserve = buffer_length (rpc_buffer (finish (reserve_of (machine7 next_piece))))

abbrev pub machine13 : Machine (List (List ℕ))
machine13 = machine_of count_reserve

same_reserve : count_reserve ≡ buffer_length (rpc_buffer (finish (reserve_of machine13)))
unfolding count_reserve file_rpc config_boolean
same_reserve = refl

xid_reserve : (finish (reserve_of machine13)).c.xid < 2 ^ 32
unfolding finish file_rpc config_boolean allocate_rpc push_header push_sequence push_session_id
    push_word push_long push_flag push_opaque push_fixed push_stateid push_op push_raw leave_opcount
    reset push_owner push_client_id push_bare_sequence push_lock_sequence
xid_reserve = omega arith

capacity_reserve : (get_buffer to_reverse (finish (reserve_of machine13)).c).capacity ≤ 2 ^ 31
unfolding finish file_rpc config_boolean allocate_rpc push_header push_sequence push_session_id
    push_word push_long push_flag push_opaque push_fixed push_stateid push_op push_raw leave_opcount
    reset push_owner push_client_id push_bare_sequence push_lock_sequence allocate_buffer
capacity_reserve = omega arith

passed_reserve : AllPassed (opcode op_lock) passed8
unfolding opcode
passed_reserve = ((refl, omega arith, refl), refl, (tt, refl, tt))

abbrev pub reserve_pieces : List (List ℕ)
reserve_pieces = pieces_of (reserve_of machine13) op_lock (stateid_bytes sid9 []) []

abbrev pub before_reserve : Sys (List (List ℕ))
before_reserve = sys7 reserve_pieces

pub reserve-Answered :
    Answered machine13 9
      (reserve_of machine13)
      op_lock
      to_reverse
      (stateid_bytes sid9 [])
      reserve_pieces
      []
reserve-Answered =
    answered (λ fd xs w. (some count_reserve, w)) (reserve_of machine13) op_lock
      (stateid_bytes sid9 []) [] passed_reserve (unfold be32 in omega arith)
      (ap (λ n. (some n, reserve_pieces)) same_reserve) capacity_reserve xid_reserve

-- The server gives RESERVED when it answers.
abbrev pub held13 : List (List ℕ) → Held
held13 [] = claim write reserved_byte 1 (mode_at shared)
held13 (piece ∷ pieces) = mode_at shared

pub reserve-Conversation :
    Conversation machine13 9 1 held13 (lock_calls shared reserved) file7 before_reserve
reserve-Conversation = (granted [] sid9 [] reserve-Answered (omega arith, refl) refl, λ f s e. tt)

abbrev release_of : Machine (List (List ℕ)) → Rpc
release_of m = unlock_request m client7 file7 read_lt shared_first shared_size

count_release : ℕ
count_release = buffer_length (rpc_buffer (finish (release_of (machine7 next_piece))))

abbrev machine14 : Machine (List (List ℕ))
machine14 = machine_of count_release

same_release : count_release ≡ buffer_length (rpc_buffer (finish (release_of machine14)))
unfolding count_release file_rpc config_boolean
same_release = refl

xid_release : (finish (release_of machine14)).c.xid < 2 ^ 32
unfolding finish file_rpc config_boolean allocate_rpc push_header push_sequence push_session_id
    push_word push_long push_opaque push_fixed push_stateid push_op push_raw leave_opcount reset
    push_bare_sequence
xid_release = omega arith

capacity_release : (get_buffer to_reverse (finish (release_of machine14)).c).capacity ≤ 2 ^ 31
unfolding finish file_rpc config_boolean allocate_rpc push_header push_sequence push_session_id
    push_word push_long push_opaque push_fixed push_stateid push_op push_raw leave_opcount reset
    push_bare_sequence allocate_buffer
capacity_release = omega arith

passed_release : AllPassed (opcode op_locku) passed8
unfolding opcode
passed_release = ((refl, omega arith, refl), refl, (tt, refl, tt))

abbrev release_pieces : List (List ℕ)
release_pieces = pieces_of (release_of machine14) op_locku (stateid_bytes sid9 []) []

abbrev held14 : List (List ℕ) → Held
held14 [] = claim free shared_first shared_size (mode_at shared)
held14 (piece ∷ pieces) = mode_at shared

release-Conversation :
    Conversation machine14 9 1 held14 (unlock_calls shared none) file7 (sys7 release_pieces)
release-Conversation = (
  granted [] sid9 []
      (answered (λ fd xs w. (some count_release, w)) (release_of machine14) op_locku
        (stateid_bytes sid9 []) [] passed_release (unfold be32 in omega arith)
        (ap (λ n. (some n, release_pieces)) same_release) capacity_release xid_release)
      (omega arith, refl) refl,
  λ f s e. tt,
)

unlock-Lowers_example : Ends (Lowers held14 shared none) (
    unlock
      (lock_range machine14 9 2)
      (unlock_range machine14 9 2)
      no_lock
      (at shared sql_file7)
      (sys7 release_pieces))
unlock-Lowers_example =
    unlock-Lowers machine14 9 1 held14 shared none sql_file7 (sys7 release_pieces) (omega arith)
      (λ j. refl) release-Conversation
