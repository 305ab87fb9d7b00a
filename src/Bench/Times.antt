-- ===== src/Bench/Times.antt =====
-- pyvfsbench/vfsbench.c, `timing_elapsed_ns` and `print_perf`: the times and the rates.
use ssqlite.Prelude.{ℕ, ◌+◌, ◌-◌, ◌*◌, ◌^◌, ◌<◌, ◌≤◌, ◌≡◌, arith}
use ssqlite.Bench.{Timespec, Timing, timing_elapsed_ns}

-- The nanoseconds of a point in time.
abbrev pub nanos : Timespec → ℕ
nanos t = t.sec * 1000000000 + t.nsec

-- For two points in time in order, with nanoseconds below a second and before 2 ^ 64 nanoseconds,
-- `timing_elapsed_ns` is the number of nanoseconds between them, also where the nanoseconds of the
-- second are fewer.
pub timing_elapsed_ns-nanos :
    (t : Timing)
    → t.start.nsec < 1000000000
    → t.end.nsec < 1000000000
    → nanos t.start ≤ nanos t.end
    → nanos t.end < 2 ^ 64
    → timing_elapsed_ns t ≡ nanos t.end - nanos t.start
unfolding timing_elapsed_ns
timing_elapsed_ns-nanos t h k le small = ground arith
