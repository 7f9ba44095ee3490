-- ===== src/Simulator/Clock.antt =====
-- The measured time is the difference of the two clock readings, though it is computed modulo 2^64.
use key_value_cluster_perf.Base.{ℕ, ◌+◌, ◌*◌, ◌^◌, ◌<◌, ◌≤◌, ◌≡◌, arith, ◌-ℤ◌}
use key_value_cluster_perf.Simulator.{Timespec, nanoseconds_difference, to_uint64}

abbrev pub total_nanoseconds : Timespec → ℕ
total_nanoseconds t = t.tv_sec * 1000000000 + t.tv_nsec

-- For readings with less than a second in their nanoseconds, of which the second is not before the
-- first and less than 2^64 nanoseconds behind it, the difference that is computed, though modulo
-- 2^64, is the exact one.
pub nanoseconds_difference_lem :
    (start stop : Timespec)
    → start.tv_nsec < 1000000000
    → stop.tv_nsec < 1000000000
    → total_nanoseconds start ≤ total_nanoseconds stop
    → total_nanoseconds stop < total_nanoseconds start + 2 ^ 64
    → nanoseconds_difference start stop + total_nanoseconds start ≡ total_nanoseconds stop
unfolding nanoseconds_difference to_uint64 ◌-ℤ◌
nanoseconds_difference_lem start stop h k le short = ground arith
