-- ===== src/File/Segment.antt =====
-- nfsv4/rpc.c, `segment`: a long transfer as a loop of chunks. `fuel` bounds the rounds.
pub mod Chunks
use ssqlite.Prelude.{ℕ, zero, suc, ◌+◌, ◌-◌, min, ltb, if◌then◌else◌}
use ssqlite.Buffer.{u32}
use ssqlite.Rpc.Config.{u64}
use ssqlite.System.{M, ◌>>◌, ◌>>=◌, pure, out_of_fuel}

module _ {W : Type 0} (each : ℕ → ℕ → ℕ → M W (Unit {0})) (chunksize x offset length : ℕ) where
  unfoldable pub segment_from : ℕ → ℕ → M W (Unit {0})
  segment_from zero done = out_of_fuel
  segment_from (suc fuel) done =
      let xfer = min (length - done) chunksize in
      let rest = segment_from fuel (u32 (done + xfer)) in
      if ltb done length then (do each (x + done) (u64 (offset + done)) xfer; rest) else pure tt

  unfoldable pub segment : ℕ → M W (Unit {0})
  segment fuel = segment_from fuel 0
