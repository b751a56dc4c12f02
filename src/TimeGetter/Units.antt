-- ===== src/TimeGetter/Units.antt =====
-- The conversions agree with each other and lose nothing until the year 2554.
use virtual_time_synchroniza.Prelude.{◌*◌, ◌/◌, ◌%◌, ◌<◌, ◌≡◌, arith}
use virtual_time_synchroniza.TimeGetter.{
  Timeval, Timespec, convert_timeval_to_us, convert_timeval_to_ns, convert_timespec_to_ns,
}

-- For a normalized time of less than 18446744073 seconds: the nanoseconds are a thousand times the
-- microseconds, both conversions to nanoseconds agree on the same time, and the seconds and the
-- microseconds can be read off the result.
pub convert_timeval_to_us_lem :
    (tv : Timeval) (ts : Timespec)
    → tv.tv_sec < 18_446_744_073
    → tv.tv_usec < 1_000_000
    → ts.tv_sec ≡ tv.tv_sec
    → ts.tv_nsec ≡ tv.tv_usec * 1000
    → (convert_timeval_to_ns tv ≡ convert_timeval_to_us tv * 1000)
      × (convert_timespec_to_ns ts ≡ convert_timeval_to_ns tv)
      × (convert_timeval_to_us tv / 1_000_000 ≡ tv.tv_sec)
      × (convert_timeval_to_us tv % 1_000_000 ≡ tv.tv_usec)
unfolding convert_timeval_to_us convert_timeval_to_ns convert_timespec_to_ns
convert_timeval_to_us_lem tv ts s u e f = (omega arith, omega arith, omega arith, omega arith)
