-- ===== src/Tests/Benches.antt =====
-- Runs of the benchmark on a VFS whose file has three bytes.
use ssqlite.Prelude.{
  ◌-◌, ℕ, ◌+◌, ◌*◌, ◌/◌, ◌%◌, ◌^◌, ◌≡◌, refl, List, length, inl, arith, ltb, if◌then◌else◌, some,
}
use ssqlite.Buffer.{u32}
use ssqlite.File.Filled.{Filled}
use ssqlite.Bench.{
  Bench, BenchState, FileOp, TestConfig, Timing, sequential_from, fill_random, run_test,
  timing_elapsed_ns, perf,
}
use ssqlite.Bench.Times.{nanos, timing_elapsed_ns-nanos}
use ssqlite.Bench.Calls.{
  calls, multiples, sequential_from-multiples, fill_random-Filled, run_test-panic,
}
use ssqlite.System.{ok, panic}

-- A call that succeeds below the position 30, and counts itself.
abbrev below30 : FileOp ℕ
below30 zbuf n pos s = (if ltb pos 30 then 0 else 10, record s { world = s.world + 1 })

abbrev bench3 : Bench ℕ
bench3 = record {
  malloc = λ n w. (100, w);
  random = λ w. (w * 1103515245 % 2 ^ 31, w + 1);
  clock = λ w. (record { sec = w; nsec = 5 }, w + 1);
  x_open = λ w. (0, w);
  x_file_size = λ w. (3, w);
  x_sync = λ w. w;
  x_read = below30;
  x_write = below30;
}

abbrev state3 : BenchState ℕ
state3 = record { memory = λ i. 0; world = 7 }

sequential_from-multiples_example :
    sequential_from below30 100 8 6 20 0 0 0 state3
    ≡ ok (calls below30 100 (u32 8) (multiples 8 6 0) state3)
sequential_from-multiples_example =
    sequential_from-multiples below30 100 8 6 20 state3 (omega arith) (omega arith)

-- Four calls succeed and the fifth, at the position 32, fails.
failed_at_32 :
    sequential_from below30 100 8 6 20 0 0 0 state3 ≡ ok (10, 4, record state3 { world = 12 })
unfolding sequential_from
failed_at_32 = refl

fill_random-Filled_example :
    (xs : List ℕ) × (length xs ≡ (6 + 3) / 4 * 4)
    × ((s' : BenchState ℕ) × (fill_random bench3 9 100 6 state3 ≡ ok s')
        × Filled state3.memory s'.memory 100 xs)
fill_random-Filled_example = fill_random-Filled bench3 9 100 6 state3 (omega arith)

abbrev random_reads : TestConfig
random_reads = record { mode = "rr"; block_size = 8; blocks_per_thread = 2 }

run_test-panic_example : run_test bench3 20 random_reads state3 ≡ panic "division by zero"
run_test-panic_example =
    run_test-panic bench3 20 random_reads state3 (inl refl) refl (omega arith) (omega arith)
      (omega arith)

-- Half a second across the end of a second.
abbrev half_second : Timing
half_second = record {
  start = record { sec = 3; nsec = 700000000 };
  end = record { sec = 4; nsec = 200000000 };
}

timing_elapsed_ns-nanos_example :
    timing_elapsed_ns half_second ≡ nanos half_second.end - nanos half_second.start
timing_elapsed_ns-nanos_example =
    timing_elapsed_ns-nanos half_second (omega arith) (omega arith) (omega arith) (omega arith)

past_half_second : timing_elapsed_ns half_second ≡ 500000000
unfolding timing_elapsed_ns
past_half_second = refl

-- Ten blocks of 512 bytes in it.
perf_of_ten : perf 512 10 half_second ≡ some (500000000, 20, 10240)
unfolding perf timing_elapsed_ns
perf_of_ten = refl
