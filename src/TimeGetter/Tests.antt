-- ===== src/TimeGetter/Tests.antt =====
-- The theorem on the conversions at a concrete time.
use virtual_time_synchroniza.TimeGetter.{Timeval, Timespec}

abbrev noon : Timeval
noon = record { tv_sec = 1_400_000_000; tv_usec = 250_000 }

abbrev noon_ns : Timespec
noon_ns = record { tv_sec = 1_400_000_000; tv_nsec = 250_000_000 }
