-- ===== src/Tests/Opens.antt =====
-- A file that is opened, and a range that is locked.
use ssqlite.Prelude.{ℕ, true, ◌<◌, ◌≤◌, ◌^◌, ◌≡◌, refl, ap, List, [], ◌∷◌, some, arith, replicate}
use ssqlite.Buffer.{Buffer, allocate_buffer, buffer_length}
use ssqlite.Protocol.Ops.{opcode, op_open, op_lock}
use ssqlite.Rpc.Config.{config_boolean}
use ssqlite.Rpc.Request.{
  finish, allocate_rpc, push_header, leave_opcount, reset, push_initial_path, push_resolution_rfh,
  push_lookups, split_last,
}
use ssqlite.Rpc.Session.{file_rpc}
use ssqlite.Rpc.Reply.Scan.{AllPassed}
use ssqlite.Xdr.Push.{
  ◌|>◌, push_sequence, push_session_id, push_word, push_long, push_flag, push_opaque, push_fixed,
  push_stateid, push_op, push_raw, push_open, push_owner, push_client_id, push_how, push_claim_null,
  push_bare_sequence, push_lock_sequence, owner_text, hex, little_endian,
}
use ssqlite.Xdr.At.{at_buffer}
use ssqlite.Xdr.Decode.{Ahead}
use ssqlite.Xdr.Words.{be32, be64}
use ssqlite.Xdr.Opened.{stateid_bytes, OpenInfo}
use ssqlite.File.Access.{lock_range}
use ssqlite.File.Open.{file_open_internal}
use ssqlite.File.Opening.{open_request, open_result, opening, opened, file_open_internal-opened}
use ssqlite.File.Opens.{open_pieces, file_open_internal-Sends}
use ssqlite.File.Requests.{Sends}
use ssqlite.File.Ranges.{lock_request}
use ssqlite.File.Locking.{lock_range-Answered}
use ssqlite.System.{StateId, Sys, Machine, Rpc, rpc_buffer, get_buffer, to_forward, to_reverse, ok}
use ssqlite.Tests.Data.{next_piece, taking, machine7, sys7, client7, file7}
use ssqlite.Tests.Exchanges.{passed8}
use ssqlite.Tests.Answers.{pieces_of, answered}

abbrev pub sid9 : StateId
sid9 = record { seqid = 1; opaque = replicate 12 9 }

-- The machine takes `n` bytes of each request.
abbrev pub machine_of : ℕ → Machine (List (List ℕ))
machine_of n = taking (λ fd xs w. (some n, w))

abbrev lock_of : Machine (List (List ℕ)) → Rpc
lock_of m = lock_request m client7 file7 1 60 3

count_lock : ℕ
count_lock = buffer_length (rpc_buffer (finish (lock_of (machine7 next_piece))))

abbrev machine11 : Machine (List (List ℕ))
machine11 = machine_of count_lock

same_lock : count_lock ≡ buffer_length (rpc_buffer (finish (lock_of machine11)))
unfolding count_lock file_rpc config_boolean
same_lock = refl

xid_lock : (finish (lock_of machine11)).c.xid < 2 ^ 32
unfolding finish file_rpc config_boolean allocate_rpc push_header push_sequence push_session_id
    push_word push_long push_flag push_opaque push_fixed push_stateid push_op push_raw leave_opcount
    reset push_owner push_client_id push_bare_sequence push_lock_sequence
xid_lock = omega arith

capacity_lock : (get_buffer to_reverse (finish (lock_of machine11)).c).capacity ≤ 2 ^ 31
unfolding finish file_rpc config_boolean allocate_rpc push_header push_sequence push_session_id
    push_word push_long push_flag push_opaque push_fixed push_stateid push_op push_raw leave_opcount
    reset push_owner push_client_id push_bare_sequence push_lock_sequence allocate_buffer
capacity_lock = omega arith

passed_lock : AllPassed (opcode op_lock) passed8
unfolding opcode
passed_lock = ((refl, omega arith, refl), refl, (tt, refl, tt))

abbrev lock_state : Sys (List (List ℕ))
lock_state = sys7 (pieces_of (lock_of machine11) op_lock (stateid_bytes sid9 []) [])

lock_range-Answered_example :
    (y : Buffer) × (lock_range machine11 9 2 file7 1 60 3 lock_state ≡ (
      ok (record file7 { latest_sid = sid9 }),
      at_buffer to_reverse y (record (sys7 []) { client = (finish (lock_of machine11)).c }),
    ))
lock_range-Answered_example =
    lock_range-Answered machine11 9 1 file7 lock_state [] sid9 [] 1 60 3
      (answered (λ fd xs w. (some count_lock, w)) (lock_of machine11) op_lock
        (stateid_bytes sid9 []) [] passed_lock (unfold be32 in omega arith)
        (ap (λ n. (some n, lock_state.world)) same_lock) capacity_lock xid_lock)
      (omega arith, refl)

-- The file b in the directory a, which is created and then written.
abbrev path7 : List (List ℕ)
path7 = (b'a' ∷ []) ∷ (b'b' ∷ []) ∷ []

abbrev directory7 : Rpc
directory7 =
    push_resolution_rfh ((b'a' ∷ []) ∷ []) (allocate_rpc client7 to_forward |> push_sequence)

abbrev open7 : Rpc
open7 = open_request directory7 (b'b' ∷ []) true true

file_open_internal-Sends_example :
    (r : Rpc) × (file_open_internal (machine7 next_piece) 9 2 file7 path7 true true (sys7 [])
      ≡ opening (machine7 next_piece) 9 2 file7 r (sys7 []))
    × (r.opcount ≡ 5)
    × Sends client7 (open_pieces client7 ((b'a' ∷ []) ∷ []) (b'b' ∷ []) true true) r
unfolding split_last allocate_buffer
file_open_internal-Sends_example =
    file_open_internal-Sends (machine7 next_piece) 9 2 file7 path7 ((b'a' ∷ []) ∷ []) (b'b' ∷ [])
      true true (sys7 []) refl (omega arith) (omega arith)
      (unfold be32 be64 opcode owner_text hex little_endian in omega arith)

count_open : ℕ
count_open = buffer_length (rpc_buffer (finish open7))

xid_open : (finish open7).c.xid < 2 ^ 32
unfolding finish allocate_rpc push_header push_sequence push_session_id push_word push_opaque
    push_op push_raw leave_opcount reset push_owner push_client_id push_open push_how
    push_claim_null push_resolution_rfh push_lookups
xid_open = omega arith

capacity_open : (get_buffer to_reverse (finish open7).c).capacity ≤ 2 ^ 31
unfolding finish allocate_rpc push_header push_sequence push_session_id push_word push_opaque
    push_op push_raw leave_opcount reset push_owner push_client_id push_open push_how
    push_claim_null push_resolution_rfh push_lookups allocate_buffer
capacity_open = omega arith

passed_open : AllPassed (opcode op_open) passed8
unfolding opcode
passed_open = ((refl, omega arith, refl), refl, (tt, refl, tt))

-- The change info, a bitmap of two words and no delegation; and a handle of four bytes.
abbrev info7 : OpenInfo
info7 = record { atomic = 1; before = 7; after = 8; rflags = 4; words = 2; bitmap = replicate 8 0 }

abbrev handle7 : List ℕ
handle7 = 1 ∷ 2 ∷ 3 ∷ 4 ∷ []

abbrev open_state : Sys (List (List ℕ))
open_state = sys7 (pieces_of open7 op_open (open_result sid9 info7 handle7 []) [])

file_open_internal-opened_example :
    (y : Buffer) × (file_open_internal (machine_of count_open) 9 2 file7 path7 true true open_state
      ≡ (
        ok (opened file7 sid9 handle7),
        at_buffer to_reverse y (record (sys7 []) { client = (finish open7).c }),
      ))
    × Ahead y []
unfolding push_initial_path split_last
file_open_internal-opened_example =
    file_open_internal-opened (machine_of count_open) 9 1 file7 path7 true true open_state
      directory7 (b'b' ∷ []) [] [] sid9 info7 handle7 [] refl
      (answered (λ fd xs w. (some count_open, w)) open7 op_open (open_result sid9 info7 handle7 [])
        [] passed_open (unfold be32 be64 opcode in omega arith) (unfold count_open in refl)
        capacity_open xid_open)
      refl (omega arith, refl)
      (record {
        atomic_small = omega arith;
        before_small = omega arith;
        after_small = omega arith;
        rflags_small = omega arith;
        words_small = omega arith;
        bitmap_size = refl;
      })
      (omega arith)
