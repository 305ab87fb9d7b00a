-- ===== src/Tests/Rivals.antt =====
-- Two clients at SHARED, of which one takes RESERVED.
use ssqlite.Prelude.{ℕ, ◌≡◌, refl, List, [], true, false, arith}
use ssqlite.Buffer.{Buffer}
use ssqlite.Rpc.Request.{finish}
use ssqlite.File.Locking.{lock_range-Answered}
use ssqlite.Xdr.At.{at_buffer}
use ssqlite.System.{to_reverse, ok}
use ssqlite.Vfs.Base.{SqlFile, guarded, resume}
use ssqlite.Vfs.Lock.{lock, take_lock, reserved_byte, write_lt}
use ssqlite.Vfs.Lock.Held.{none, shared, reserved, exclusive, mode_at}
use ssqlite.Vfs.Lock.Rivals.{Station, Pair, Reach, LockServed, lock_at, first_lock, initial, later}
use ssqlite.Vfs.Lock.Exclusion.{Excluded, mutual_exclusion}
use ssqlite.Tests.Data.{sys7, file7}
use ssqlite.Tests.Opens.{sid9}
use ssqlite.Tests.Locks.{
  machine13, held13, reserve_of, before_reserve, reserve-Answered, reserve-Conversation,
}

abbrev one13 : Station (List (List ℕ))
one13 = record { machine = machine13; io = 9; depth = 1; held = held13 }

-- The other client reads throughout.
abbrev two13 : Station (List (List ℕ))
two13 = record { machine = machine13; io = 9; depth = 1; held = λ w. mode_at shared }

abbrev shared_file : SqlFile
shared_file = record { f = file7; file_lock = 1; powersafe = true; readonly = false }

abbrev pair13 : Pair (List (List ℕ))
pair13 = record {
  first = shared_file;
  second = shared_file;
  one = sys7 [];
  two = sys7 [];
  world = before_reserve.world;
}

served13 : LockServed one13 reserved shared_file before_reserve
served13 none e = absurd (omega (arith, e))
served13 shared e = reserve-Conversation
served13 reserved e = absurd (omega (arith, e))
served13 exclusive e = absurd (omega (arith, e))

abbrev reserved_file : SqlFile
reserved_file = record shared_file { f = record file7 { latest_sid = sid9 }; file_lock = 2 }

locked13 :
    (y : Buffer) × (lock_at one13 reserved shared_file before_reserve ≡ (
      ok (reserved_file, 0),
      at_buffer to_reverse y (record (sys7 []) { client = (finish (reserve_of machine13)).c }),
    ))
unfolding lock take_lock guarded resume
locked13 =
    let (y, e) =
      lock_range-Answered machine13 9 1 file7 before_reserve [] sid9 [] write_lt reserved_byte 1
        reserve-Answered (omega arith, refl) in
    (y, rw e refl)

reserved13 :
    (q : Pair (List (List ℕ))) × Reach one13 two13 pair13 q
    × (q.first.file_lock ≡ 2)
    × (q.second.file_lock ≡ 1)
    × (q.world ≡ [])
reserved13 =
    let (y, e) = locked13 in
    (_, later initial (first_lock reserved served13 e refl), refl, refl, refl)

mutual_exclusion_example : Excluded reserved13.0.first.file_lock reserved13.0.second.file_lock
unfolding reserved13
mutual_exclusion_example =
    mutual_exclusion one13 two13 {p = pair13} (shared, refl, λ j. omega arith)
      (shared, refl, λ j. omega arith) reserved13.1 (λ j. ground arith)
