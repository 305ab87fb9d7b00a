-- ===== src/Tests/Requests.antt =====
-- Requests as they are laid out and replayed.
use ssqlite.Prelude.{◌≡◌, refl, arith, replicate}
use ssqlite.Prelude.Memory.{slice}
use ssqlite.Buffer.{allocate_buffer}
use ssqlite.Rpc.Request.{replay_rpc, finish}
use ssqlite.Rpc.Replay.{replay_rpc-session}
use ssqlite.System.{Rpc, to_forward, rpc_buffer}
use ssqlite.Rpc.Finish.{record_mark, finish-slices}
use ssqlite.Xdr.Words.{be32}
use ssqlite.Tests.Data.{client7, heap7}

-- A request built for an earlier session, whose client has the session of sixteen bytes 5 now.
abbrev request7 : Rpc
request7 = record { c = client7; opcountloc = 88; opcount = 1; b = to_forward }

replay_rpc-session_example :
    (slice (rpc_buffer (replay_rpc request7)).contents 96 16 ≡ replicate 16 7)
    × (slice (rpc_buffer (replay_rpc request7)).contents 60 16 ≡ replicate 16 5)
unfolding allocate_buffer
replay_rpc-session_example = replay_rpc-session request7 refl

-- Sixteen bytes 7, the count at offset 8.
abbrev pub request_out : Rpc
request_out = record {
  c = record client7 {
    forward = record { h = heap7; start = 0; end = 16; capacity = 16; contents = λ j. 7 };
  };
  opcountloc = 8;
  opcount = 3;
  b = to_forward;
}

finish-slices_example :
    (slice (rpc_buffer (finish request_out)).contents 0 4 ≡ record_mark 12)
    × (slice (rpc_buffer (finish request_out)).contents 8 4 ≡ be32 3)
    × (slice (rpc_buffer (finish request_out)).contents 4 4 ≡ replicate 4 7)
    × (slice (rpc_buffer (finish request_out)).contents 12 4 ≡ replicate 4 7)
finish-slices_example =
    finish-slices request_out (replicate 16 7) 4
      (record {
        valid = record { ordered = omega arith; within = omega arith; small = omega arith };
        origin = refl;
        size = refl;
        live = refl;
      })
      (omega arith) (omega arith) (omega arith)
