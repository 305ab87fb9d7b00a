-- ===== src/Tests/Exclusives.antt =====
-- A file at SHARED that takes EXCLUSIVE with two requests.
use mathlib.Core.Path.{subst}
use ssqlite.Prelude.{ℕ, ◌<◌, ◌≤◌, ◌≡◌, ◌^◌, refl, sym, ap, ◌∙◌, List, [], ◌∷◌, some, arith}
use ssqlite.Buffer.{Buffer, allocate_buffer, buffer_length}
use ssqlite.Protocol.Ops.{opcode, op_lock}
use ssqlite.Rpc.Config.{config_boolean}
use ssqlite.Rpc.Request.{finish, allocate_rpc, push_header, leave_opcount, reset}
use ssqlite.Rpc.Session.{file_rpc}
use ssqlite.Rpc.Reply.Scan.{AllPassed}
use ssqlite.Rpc.Transact.{Answered}
use ssqlite.Xdr.Push.{
  push_sequence, push_session_id, push_word, push_long, push_flag, push_opaque, push_fixed,
  push_stateid, push_op, push_raw, push_owner, push_client_id, push_bare_sequence,
  push_lock_sequence,
}
use ssqlite.Xdr.At.{at_buffer}
use ssqlite.Xdr.Words.{be32}
use ssqlite.Xdr.Opened.{stateid_bytes}
use ssqlite.File.Access.{lock_range, unlock_range}
use ssqlite.File.Locking.{lock_range-Ahead}
use ssqlite.File.Ranges.{lock_request}
use ssqlite.System.{
  File, Sys, Machine, Outcome, Rpc, rpc_buffer, get_buffer, to_reverse, ok, fail, panic, stuck,
}
use ssqlite.Vfs.Lock.{lock, pending_byte, shared_first, shared_size, exclusive_lock, write_lt}
use ssqlite.Vfs.Lock.Held.{Held, claim, write, shared, exclusive, mode_at}
use ssqlite.Vfs.Lock.Exchange.{Call, Conversation, lock_calls, locks, granted}
use ssqlite.Vfs.Lock.Rules.{Ends, Raises, at}
use ssqlite.Vfs.Lock.Grant.{lock-Raises}
use ssqlite.Tests.Data.{next_piece, machine7, sys7, client7, file7, sql_file7}
use ssqlite.Tests.Exchanges.{passed8}
use ssqlite.Tests.Opens.{machine_of, sid9}
use ssqlite.Tests.Answers.{pieces_of, answered}

-- The two requests; the second follows a reply that is left in the buffer `y`.
abbrev first_of : Machine (List (List ℕ)) → Rpc
first_of m = lock_request m client7 file7 write_lt pending_byte 1

abbrev file15 : File
file15 = record file7 { latest_sid = sid9 }

abbrev second_of : Machine (List (List ℕ)) → Buffer → Rpc
second_of m y =
    lock_request m (record (finish (first_of m)).c { reverse = y }) file15 write_lt shared_first
      shared_size

pub count15 : ℕ
count15 = buffer_length (rpc_buffer (finish (first_of (machine7 next_piece))))

abbrev machine15 : Machine (List (List ℕ))
machine15 = machine_of count15

same_first : count15 ≡ buffer_length (rpc_buffer (finish (first_of machine15)))
unfolding count15 file_rpc config_boolean
same_first = refl

same_second : (y : Buffer) → count15 ≡ buffer_length (rpc_buffer (finish (second_of machine15 y)))
unfolding count15 finish file_rpc config_boolean allocate_rpc push_header push_sequence
    push_session_id push_word push_long push_flag push_opaque push_fixed push_stateid push_op
    push_raw leave_opcount reset push_owner push_client_id push_bare_sequence push_lock_sequence
    allocate_buffer ssqlite.Xdr.Words.push_string be32 buffer_length ssqlite.Xdr.Words.push_padding
    ssqlite.Xdr.Push.owner_text ssqlite.Xdr.Words.pad ssqlite.Xdr.Push.hex
    ssqlite.Xdr.Push.little_endian ssqlite.Buffer.append_bytes ssqlite.Xdr.Words.push_be32
    ssqlite.Buffer.buffer_extend ssqlite.Buffer.push_bytes ssqlite.Xdr.Words.push_fixed_string
    ssqlite.Xdr.Words.push_boolean ssqlite.Xdr.Words.push_be64 ssqlite.Xdr.Words.be64
same_second y = refl

xid_first : (finish (first_of machine15)).c.xid < 2 ^ 32
unfolding finish file_rpc config_boolean allocate_rpc push_header push_sequence push_session_id
    push_word push_long push_flag push_opaque push_fixed push_stateid push_op push_raw leave_opcount
    reset push_owner push_client_id push_bare_sequence push_lock_sequence
xid_first = omega arith

xid_second : (y : Buffer) → (finish (second_of machine15 y)).c.xid ≡ 11
unfolding finish file_rpc config_boolean allocate_rpc push_header push_sequence push_session_id
    push_word push_long push_flag push_opaque push_fixed push_stateid push_op push_raw leave_opcount
    reset push_owner push_client_id push_bare_sequence push_lock_sequence
xid_second y = refl

capacity_first : (get_buffer to_reverse (finish (first_of machine15)).c).capacity ≤ 2 ^ 31
unfolding finish file_rpc config_boolean allocate_rpc push_header push_sequence push_session_id
    push_word push_long push_flag push_opaque push_fixed push_stateid push_op push_raw leave_opcount
    reset push_owner push_client_id push_bare_sequence push_lock_sequence allocate_buffer
capacity_first = omega arith

reverse_second : (y : Buffer) → get_buffer to_reverse (finish (second_of machine15 y)).c ≡ y
unfolding finish file_rpc config_boolean allocate_rpc push_header push_sequence push_session_id
    push_word push_long push_flag push_opaque push_fixed push_stateid push_op push_raw leave_opcount
    reset push_owner push_client_id push_bare_sequence push_lock_sequence
reverse_second y = refl

passed15 : AllPassed (opcode op_lock) passed8
unfolding opcode
passed15 = ((refl, omega arith, refl), refl, (tt, refl, tt))

-- The answers, and what the server holds for the file while they are still to be read.
abbrev second15 : List (List ℕ)
second15 = pieces_of (second_of machine15 client7.reverse) op_lock (stateid_bytes sid9 []) []

abbrev first15 : List (List ℕ)
first15 = pieces_of (first_of machine15) op_lock (stateid_bytes sid9 []) second15

abbrev held15 : List (List ℕ) → Held
held15 [] = claim write shared_first shared_size (claim write pending_byte 1 (mode_at shared))
held15 (a ∷ []) = mode_at shared
held15 (a ∷ b ∷ []) = claim write pending_byte 1 (mode_at shared)
held15 (a ∷ b ∷ c ∷ w) = mode_at shared

first-Answered :
    Answered machine15 9
      (first_of machine15)
      op_lock
      to_reverse
      (stateid_bytes sid9 [])
      first15
      second15
first-Answered =
    answered (λ fd xs w. (some count15, w)) (first_of machine15) op_lock (stateid_bytes sid9 [])
      second15 passed15 (unfold be32 in omega arith) (ap (λ n. (some n, first15)) same_first)
      capacity_first xid_first

second_same :
    (y : Buffer) → pieces_of (second_of machine15 y) op_lock (stateid_bytes sid9 []) [] ≡ second15
unfolding finish file_rpc config_boolean allocate_rpc push_header push_sequence push_session_id
    push_word push_long push_flag push_opaque push_fixed push_stateid push_op push_raw leave_opcount
    reset push_owner push_client_id push_bare_sequence push_lock_sequence
second_same y = refl

second-Answered :
    (y : Buffer)
    → y.capacity ≤ 2 ^ 31
    → Answered machine15 9
        (second_of machine15 y)
        op_lock
        to_reverse
        (stateid_bytes sid9 [])
        second15
        []
second-Answered y h =
    let r = second_of machine15 y in
    subst
      (λ (w : List (List ℕ)).
        Answered machine15 9 r op_lock to_reverse (stateid_bytes sid9 []) w [])
      (second_same y)
      (answered (λ fd xs w. (some count15, w)) r op_lock (stateid_bytes sid9 []) [] passed15
        (unfold be32 in omega arith)
        (ap (λ n. (some n, pieces_of r op_lock (stateid_bytes sid9 []) [])) (same_second y))
        (omega (arith, h, ap (λ (b : Buffer). b.capacity) (reverse_second y)))
        (omega (arith, xid_second y)))

abbrev between15 : Buffer → Sys (List (List ℕ))
between15 y =
    at_buffer to_reverse y (record (sys7 second15) { client = (finish (first_of machine15)).c })

abbrev second_call : Call
second_call = locks write_lt shared_first shared_size

abbrev Continues : Outcome File × Sys (List (List ℕ)) → Type 0
Continues (ok f, s) = Conversation machine15 9 1 held15 (second_call ∷ []) f s
Continues (fail e, s) = Unit
Continues (panic e, s) = Unit
Continues (stuck, s) = Unit

second-Continues : (y : Buffer) → y.capacity ≤ 2 ^ 31 → Continues (ok file15, between15 y)
second-Continues y h =
    (granted [] sid9 [] (second-Answered y h) (omega arith, refl) refl, λ f s e. tt)

exclusive-Conversation :
    Conversation machine15 9 1 held15 (lock_calls shared exclusive) file7 (sys7 first15)
exclusive-Conversation = (
  granted second15 sid9 [] first-Answered (omega arith, refl) refl,
  λ f s e.
      let (y, e1, a) =
        lock_range-Ahead machine15 9 1 file7 (sys7 first15) second15 sid9 [] write_lt pending_byte 1
          first-Answered (omega arith, refl) in
      subst Continues (sym e1 ∙ e) (second-Continues y a.valid.small),
)

lock-Raises_example : Ends (Raises held15 shared exclusive) (
    lock
      (lock_range machine15 9 2)
      (unlock_range machine15 9 2)
      exclusive_lock
      (at shared sql_file7)
      (sys7 first15))
lock-Raises_example =
    lock-Raises machine15 9 1 held15 shared exclusive sql_file7 (sys7 first15) tt (λ j. refl)
      exclusive-Conversation
