-- ===== src/Tests/Roundtrip.antt =====
-- Bytes that are written are read back.
use mathlib.Core.Path.{subst}
use ssqlite.Prelude.{
  ℕ, ◌<◌, ◌≡◌, refl, sym, ap, List, [], ◌∷◌, some, none, true, arith, length, false, ltb,
  if◌then◌else◌,
}
use ssqlite.Prelude.Memory.{slice}
use ssqlite.Buffer.Growth.{IsValid}
use ssqlite.Buffer.{Buffer}
use ssqlite.Protocol.Ops.{op_read}
use ssqlite.Rpc.Config.{config_boolean}
use ssqlite.Rpc.Request.{finish, allocate_rpc, push_header, leave_opcount}
use ssqlite.Rpc.Session.{file_rpc}
use ssqlite.Xdr.Push.{
  push_sequence, push_session_id, push_word, push_long, push_opaque, push_fixed, push_stateid,
  push_op, push_raw,
}
use ssqlite.Xdr.At.{at_buffer}
use ssqlite.Xdr.Words.{be32}
use ssqlite.File.Segment.{segment, segment_from}
use ssqlite.File.Segment.Chunks.{chunks}
use ssqlite.File.Whole.{Served, Serves}
use ssqlite.File.Written.{write_chunk-stored}
use ssqlite.Vfs.Base.{SqlFile}
use ssqlite.Vfs.Methods.{IoMethods, nfs4_io_methods, x_read-x_write}
use ssqlite.File.Access.{writefile}
use ssqlite.File.Reading.{read_result}
use ssqlite.System.{Sys, ◌>>=◌, to_reverse, ok}
use ssqlite.Tests.Data.{file7}
use ssqlite.Tests.Answers.{answered}
use ssqlite.Tests.Stores.{
  two, write_of, read_back, written_client, machine10, count_written, count_read, read_pieces,
  disk_of, state_of, stored10, stores10, xid_read, reverse_read, maxresp_written, same_read,
  passed_read,
}

writes10 :
    (y : Buffer) × (writefile machine10 9 2 3 file7 60 100 2 (state_of 2) ≡ (
      ok tt,
      at_buffer to_reverse y (record (state_of 2) {
        client = (finish (write_of machine10)).c;
        world = read_pieces;
        badsession = false;
      }),
    ))
    × IsValid y
unfolding writefile segment segment_from stored10
writes10 =
    let (y, e, a) =
      write_chunk-stored machine10 9 1 file7 (disk_of two) 60 100 2 2 (state_of 2) (stored10 2) in
    (y, rw e refl, a.valid)

-- What the round trip asks of the state between the write and the read.
abbrev ReadsBack : Sys (List (List ℕ)) → Type 0
ReadsBack s =
    (0 < s.client.maxresp)
    × Serves machine10 9 1 file7 (disk_of two s.world) 5 100 (chunks 2 s.client.maxresp 0 2) s

served10 :
    (y : Buffer)
    → IsValid y
    → Served machine10 9 1 file7 (disk_of two read_pieces) 100 2 (
        at_buffer to_reverse y (record (state_of 2) {
          client = (finish (write_of machine10)).c;
          world = read_pieces;
          badsession = false;
        }))
unfolding finish count_read push_opaque push_word push_long push_stateid push_fixed push_op file_rpc
    config_boolean push_sequence push_session_id push_raw allocate_rpc leave_opcount push_header
served10 y v = record {
  eof = 0;
  rest = [];
  after = [];
  eof_small = omega arith;
  answered =
      answered (λ fd xs w. (some (if ltb 2 (length w) then count_written else count_read), w))
        (read_back machine10 (written_client machine10 y)) op_read (read_result 0 two []) []
        passed_read (unfold be32 in omega arith) (ap (λ n. (some n, read_pieces)) (same_read y))
        (omega (arith, ap (λ (b : Buffer). b.capacity) (reverse_read y), v.small)) (xid_read y);
}

reads_back10 : ReadsBack (writefile machine10 9 2 3 file7 60 100 2 (state_of 2)).1
unfolding chunks
reads_back10 =
    let (y, e, v) = writes10 in
    subst (λ r. ReadsBack r.1) (sym e)
      (
        omega (arith, maxresp_written y),
        subst
            (λ (n : ℕ).
              Serves machine10 9 1 file7 (disk_of two read_pieces) 5 100 (chunks 2 n 0 2) (
                at_buffer to_reverse y (record (state_of 2) {
                  client = (finish (write_of machine10)).c;
                  world = read_pieces;
                  badsession = false;
                })))
            (sym (maxresp_written y)) ((served10 y v, tt)),
      )

abbrev sql7 : SqlFile
sql7 = record { f = file7; file_lock = 1; powersafe = true; readonly = false }

abbrev methods10 : IoMethods (List (List ℕ))
methods10 = nfs4_io_methods machine10 9 2 3 (λ name. name)

x_read-x_write_example :
    (s' : Sys (List (List ℕ))) × ((methods10.x_write sql7 60 2 100 >>= λ rc.
    methods10.x_read sql7 5 2 100)
        (state_of 2)
      ≡ (ok none, s'))
    × (slice s'.memory 5 2 ≡ 60 ∷ 61 ∷ [])
x_read-x_write_example =
    x_read-x_write machine10 9 1 sql7 (disk_of two) (λ name. name) 3 60 5 100 2 (state_of 2)
      (omega arith) (omega arith) (omega arith) (omega arith) stores10 reads_back10.0 reads_back10.1
