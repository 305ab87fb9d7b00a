-- ===== src/Bench.antt =====
-- pyvfsbench/vfsbench.c: the benchmark of a VFS, as it is built without TIMING_DETAIL. Its loops
-- take fuel; a division by zero and `exit(1)` are outcomes.
pub mod Times
pub mod Calls
use text.Mathlib.Text.{◌==◌ as str_eq}
use ssqlite.Prelude.{
  ℕ, zero, suc, ◌+◌, ◌-◌, ◌*◌, ◌/◌, ◌%◌, ◌^◌, Bool, true, false, not, String, Option, none, some,
  ltb, ◌==◌, if◌then◌else◌,
}
use ssqlite.Prelude.Memory.{Block, memcpy}
use ssqlite.Buffer.{u32}
use ssqlite.Rpc.Config.{u64}
use ssqlite.File.Open.{le_bytes}
use ssqlite.System.{Outcome, ok, fail, panic, stuck}

-- `struct timespec` and `struct Timing`
pub record Timespec : Type 0 where
  pub sec : ℕ
  pub nsec : ℕ

pub record Timing : Type 0 where
  pub start : Timespec
  pub end : Timespec

-- `struct TestResult` and `struct test_config`, but for the result that it points to. The two
-- sizes are of the type `int`, and negative ones are left out.
pub record TestResult : Type 0 where
  pub success_op_ct : ℕ
  pub overall_timing : Timing

pub record TestConfig : Type 0 where
  pub mode : String
  pub block_size : ℕ
  pub blocks_per_thread : ℕ

-- The memory of the program, and all else.
pub record BenchState (W : Type 0) : Type 0 where
  pub memory : Block
  pub world : W

-- A read or a write: the address, the number of bytes and the position; its result code.
abbrev pub FileOp : Type 0 → Type 0
FileOp W = ℕ → ℕ → ℕ → BenchState W → ℕ × BenchState W

-- libc, SQLite and the VFS under test.
pub record Bench (W : Type 0) : Type 0 where
  -- `sqlite3_malloc`
  pub malloc : ℕ → W → ℕ × W
  pub random : W → ℕ × W
  -- `clock_gettime(CLOCK_REALTIME)`
  pub clock : W → Timespec × W
  pub x_open : W → ℕ × W
  -- The size that is stored through the pointer.
  pub x_file_size : W → ℕ × W
  pub x_sync : W → W
  pub x_read : FileOp W
  pub x_write : FileOp W

-- `%` on `long` rounds towards zero, and the difference is taken as a `u64`.
unfoldable pub timing_elapsed_ns : Timing → ℕ
timing_elapsed_ns t =
    let past = u64 (t.end.sec + 2 ^ 64 - t.start.sec) in
    let rest =
      if ltb t.end.nsec t.start.nsec
      then 2 ^ 64 - (t.start.nsec - t.end.nsec) % 1000000000
      else (t.end.nsec - t.start.nsec) % 1000000000 in
    u64 (past * 1000000000 + rest)

-- The elapsed time, the blocks and the bytes for a second; `none` is the division by zero.
unfoldable pub perf : ℕ → ℕ → Timing → Option (ℕ × ℕ × ℕ)
unfolding timing_elapsed_ns
perf block_size num_blocks t =
    let elapsed_ns = timing_elapsed_ns t in
    let blocks_per_sec = u64 (num_blocks * 1000000000) / elapsed_ns in
    if elapsed_ns == 0
    then none
    else some (elapsed_ns, blocks_per_sec, u64 (blocks_per_sec * block_size))

module _ {W : Type 0} where
  -- The loop of `op_sequentially`: the result code, the count and the state when it ends.
  unfoldable pub sequential_from :
      FileOp W → ℕ → ℕ → ℕ → ℕ → ℕ → ℕ → ℕ → BenchState W → Outcome (ℕ × ℕ × BenchState W)
  sequential_from op zbuf block_size n_ops zero pos ct rc s = stuck
  sequential_from op zbuf block_size n_ops (suc fuel) pos ct rc s =
      let (rc', s') = op zbuf (u32 block_size) pos s in
      let rest =
        sequential_from op zbuf block_size n_ops fuel (u64 (pos + block_size)) (u64 (ct + 1)) rc'
          s' in
      if ltb ct n_ops then (if rc' == 0 then rest else ok (rc', ct, s')) else ok (rc, ct, s)

module _ {W : Type 0} (b : Bench W) where
  -- `for (p = zBuf; p < zBuf + size; p++) *p = random();`, with the words from `p` on.
  unfoldable pub fill_words : ℕ → ℕ → ℕ → BenchState W → Outcome (BenchState W)
  fill_words zero p stop s = stuck
  fill_words (suc fuel) p stop s =
      let (r, w) = b.random s.world in
      let written : BenchState W = record {
        memory = memcpy s.memory p (le_bytes 4 r);
        world = w;
      } in
      let rest = fill_words fuel (p + 4) stop written in if ltb p stop then rest else ok s

  unfoldable pub fill_random : ℕ → ℕ → ℕ → BenchState W → Outcome (BenchState W)
  unfolding fill_words
  fill_random fuel zbuf size s = fill_words fuel zbuf (zbuf + size) s

  -- That of `op_randomly`.
  unfoldable pub random_from :
      FileOp W → ℕ → ℕ → ℕ → ℕ → ℕ → ℕ → ℕ → BenchState W → Outcome (ℕ × ℕ × BenchState W)
  random_from op zbuf block_size n_ops block_limit zero ct rc s = stuck
  random_from op zbuf block_size n_ops block_limit (suc fuel) ct rc s =
      let (r, w) = b.random s.world in
      let (rc', s') =
        op zbuf (u32 block_size) (u64 (block_size * (r % block_limit))) (record s { world = w }) in
      let rest = random_from op zbuf block_size n_ops block_limit fuel (u64 (ct + 1)) rc' s' in
      if ltb ct n_ops
      then (if block_limit == 0
          then panic "division by zero"
          else if rc' == 0
          then rest
          else ok (rc', ct, s'))
      else ok (rc, ct, s)

-- What follows an outcome that is a value.
abbrev pub and_then : {A B : Type 0} → Outcome A → (A → Outcome B) → Outcome B
and_then (ok a) f = f a
and_then (fail e) f = fail e
and_then (panic e) f = panic e
and_then stuck f = stuck

module _ {W : Type 0} (b : Bench W) (fuel : ℕ) where
  -- A block of random bytes for the calls, and the time at which they start.
  unfoldable pub prepared : ℕ → BenchState W → Outcome (ℕ × Timespec × BenchState W)
  prepared block_size s =
      let (zbuf, w) = b.malloc block_size s.world in
      and_then (fill_random b fuel zbuf block_size (record s { world = w })) λ filled.
        let (start, w') = b.clock filled.world in ok (zbuf, start, record filled { world = w' })

  -- The result code, and the result once the file is synchronised, if it is to be.
  unfoldable pub finished :
      Bool → Timespec → ℕ × ℕ × BenchState W → Outcome (ℕ × TestResult × BenchState W)
  finished sync start (rc, ct, s) =
      let synced = if sync then b.x_sync s.world else s.world in
      let (stop, w) = b.clock synced in
      ok (
        rc,
        record { success_op_ct = u32 ct; overall_timing = record { start = start; end = stop } },
        record s { world = w },
      )

  unfoldable pub op_sequentially :
      FileOp W → ℕ → ℕ → Bool → BenchState W → Outcome (ℕ × TestResult × BenchState W)
  unfolding prepared finished
  op_sequentially op block_size n_ops sync s =
      and_then (prepared block_size s)
        λ p. and_then (sequential_from op p.0 block_size n_ops fuel 0 0 0 p.2) (finished sync p.1)

  unfoldable pub op_randomly :
      FileOp W → ℕ → ℕ → ℕ → Bool → BenchState W → Outcome (ℕ × TestResult × BenchState W)
  unfolding prepared finished
  op_randomly op block_size n_ops block_limit sync s = and_then (prepared block_size s) λ p.
      and_then (random_from b op p.0 block_size n_ops block_limit fuel 0 0 p.2) (finished sync p.1)

  -- `file_size / block_size`, then the random calls.
  unfoldable pub on_blocks :
      FileOp W → TestConfig → ℕ → Bool → BenchState W → Outcome (ℕ × TestResult × BenchState W)
  on_blocks op config file_size sync s =
      if config.block_size == 0
      then panic "division by zero"
      else op_randomly op config.block_size config.blocks_per_thread (file_size / config.block_size)
          sync s

  -- The tests by the name of their mode. The result of `xFileSize` is not looked at.
  unfoldable pub run_test : TestConfig → BenchState W → Outcome (ℕ × TestResult × BenchState W)
  unfolding on_blocks
  run_test config s =
      let (rc, w) = b.x_open s.world in
      let (file_size, w') = b.x_file_size w in
      let opened : BenchState W = record s { world = w' } in
      if not (rc == 0)
      then fail "Unable to open file"
      else if str_eq config.mode "sr"
      then op_sequentially b.x_read config.block_size config.blocks_per_thread false opened
      else if str_eq config.mode "rr"
      then on_blocks b.x_read config file_size false opened
      else if str_eq config.mode "sw"
      then op_sequentially b.x_write config.block_size config.blocks_per_thread true opened
      else if str_eq config.mode "rw"
      then on_blocks b.x_write config file_size true opened
      else fail "Unknown mode"
