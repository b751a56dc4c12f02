-- ===== src/Timer/Tests.antt =====
-- Runs of the virtual clocks, and the theorems on them at concrete times.
use virtual_time_synchroniza.Prelude.{ℕ, ◌≡◌, refl, true, [], ◌∷◌, arith}
use virtual_time_synchroniza.Prelude.Int.{pos, ◌≤ℤ◌, ◌*ℤ◌, ◌+ℤ◌, ◌-ℤ◌, ◌/ℤ◌}
use virtual_time_synchroniza.Floats.Fixed.{fixed, fixed-IsExact, fixed-IsMonotone, quotient}
use virtual_time_synchroniza.Timer.{
  Shared, HostTime, get_clock, cpu_get_real_ticks, virtual_now, cpu_get_clock_copy,
  cpu_get_ticks_copy, read_ticks, ticks_offset, stop_clocks, cpu_enable_ticks, cpu_disable_ticks,
  set_tdf, vm_gettimeofday,
}
use virtual_time_synchroniza.Timer.Continuity.{resume_continuous}
use virtual_time_synchroniza.Timer.Rounds.{
  Round, play, play_all, play_all_mono, resume_ticks_continuous,
}

-- The monotonic clock shows `n` nanoseconds, the time of day is 500 s later.
abbrev pub at : ℕ → HostTime
at n = record {
  tv_sec = pos 500;
  tv_usec = pos 0;
  ts_sec = pos 0;
  ts_nsec = pos n;
  tsc_high = 0;
  tsc_low = n;
}

abbrev pub running : Shared
running = record {
  timers = record {
    cpu_ticks_prev = pos 100;
    cpu_ticks_offset = pos 7;
    cpu_ticks_restart = pos 100;
    cpu_ticks_log = pos 0;
    cpu_clock_offset = pos 5;
    cpu_clock_restart = pos 100;
    cpu_clock_log = pos 0;
    cpu_ticks_enabled = true;
    dummy = pos 0;
  };
  tdf = pos 2000;
  simulators = record { time = 0; overhead_delay = 0 };
}

-- At TDF 2 a hundred nanoseconds count for fifty.
half_speed : cpu_get_clock_copy true running (at 200) ≡ pos 155
unfolding cpu_get_clock_copy virtual_now get_clock ◌*ℤ◌ ◌+ℤ◌ ◌-ℤ◌ quotient
half_speed = refl

time_of_day : vm_gettimeofday (pos 3_000_004_999) ≡ (pos 3, pos 4)
unfolding vm_gettimeofday ◌*ℤ◌ ◌-ℤ◌ ◌/ℤ◌
time_of_day = refl

resume_continuous_example :
    cpu_get_clock_copy true
      (cpu_enable_ticks true
        (set_tdf (pos 4000) (cpu_disable_ticks true running (at 200)))
        (at 300))
      (at 300)
    ≡ cpu_get_clock_copy true running (at 200)
unfolding cpu_get_clock_copy virtual_now get_clock ◌*ℤ◌ ◌+ℤ◌ ◌-ℤ◌ quotient
resume_continuous_example =
    resume_continuous fixed-IsExact true running (at 200) (at 300) (pos 4000) refl refl
      (omega arith) (omega arith) (omega arith)

abbrev first_round : Round
first_round = record { stop = at 200; new_tdf = pos 4000; start = at 300 }

play_all_mono_example :
    cpu_get_clock_copy true running (at 150)
    ≤ℤ cpu_get_clock_copy true (play_all true running (first_round ∷ [])) (at 700)
unfolding play cpu_enable_ticks cpu_disable_ticks set_tdf stop_clocks read_ticks ticks_offset
    cpu_get_ticks_copy cpu_get_clock_copy virtual_now get_clock ◌*ℤ◌ ◌+ℤ◌ ◌-ℤ◌ quotient
play_all_mono_example =
    play_all_mono fixed-IsExact fixed-IsMonotone true running (at 150) (first_round ∷ []) (at 700)
      (refl, refl)
      (
        (omega arith, (omega arith, (refl, refl)), (omega arith, (refl, refl))),
        (refl, omega arith, omega arith, omega arith),
        (omega arith, (omega arith, (refl, refl)), (omega arith, (refl, refl))),
      )

resume_ticks_continuous_example :
    (cpu_get_ticks_copy
      (cpu_enable_ticks true
        (set_tdf (pos 4000) (cpu_disable_ticks true running (at 200)))
        (at 300))
      (at 300)).1
    ≡ (cpu_get_ticks_copy running (at 200)).1
unfolding cpu_get_ticks_copy read_ticks virtual_now cpu_get_real_ticks ◌*ℤ◌ ◌+ℤ◌ ◌-ℤ◌ quotient
resume_ticks_continuous_example =
    resume_ticks_continuous fixed-IsExact true running (at 200) (at 300) (pos 4000) refl refl refl
      (omega arith) (omega arith) (omega arith)
