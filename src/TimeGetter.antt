-- ===== src/TimeGetter.antt =====
-- virtualagent/TimeGetter.{hpp,cpp}: the conversions of the system's times to a `uint64_t`, which
-- wrap around. The times count from 1970 or from the boot, so that they are not negative.
pub mod Units
pub mod Tests
use virtual_time_synchroniza.Prelude.{ℕ, ◌+◌, ◌*◌, ◌%◌, ◌^◌}

-- `struct timeval` and `struct timespec`: seconds, and micro- or nanoseconds.
pub record Timeval : Type 0 where
  pub tv_sec : ℕ
  pub tv_usec : ℕ

pub record Timespec : Type 0 where
  pub tv_sec : ℕ
  pub tv_nsec : ℕ

unfoldable pub convert_timeval_to_us : Timeval → ℕ
convert_timeval_to_us tv = (tv.tv_sec * 1_000_000 + tv.tv_usec) % 2 ^ 64

unfoldable pub convert_timeval_to_ns : Timeval → ℕ
convert_timeval_to_ns tv = (tv.tv_sec * 1_000_000_000 + tv.tv_usec * 1000) % 2 ^ 64

unfoldable pub convert_timespec_to_ns : Timespec → ℕ
convert_timespec_to_ns ts = (ts.tv_sec * 1_000_000_000 + ts.tv_nsec) % 2 ^ 64

-- The getters; the argument is what the structure holds behind the call of the system, also where that failed.
unfoldable pub get_time_us : Timeval → ℕ
unfolding convert_timeval_to_us
get_time_us tv = convert_timeval_to_us tv

unfoldable pub get_time_ns : Timeval → ℕ
unfolding convert_timeval_to_ns
get_time_ns tv = convert_timeval_to_ns tv

unfoldable pub get_clock_real_time : Timespec → ℕ
unfolding convert_timespec_to_ns
get_clock_real_time ts = convert_timespec_to_ns ts

unfoldable pub get_clock_monotonic : Timespec → ℕ
unfolding convert_timespec_to_ns
get_clock_monotonic ts = convert_timespec_to_ns ts
