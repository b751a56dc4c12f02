-- ===== src/Timer/Readers/Tests.antt =====
-- Runs of the readers' loops next to a process that stops the clocks, and the theorems on them.
use virtual_time_synchroniza.Prelude.{
  ℕ, ◌≡◌, refl, true, false, if◌then◌else◌, ltb, ◌==◌, some, arith,
}
use virtual_time_synchroniza.Prelude.Int.{ℤ, ◌≤ℤ◌, pos, negsuc, ◌*ℤ◌, ◌+ℤ◌, ◌-ℤ◌}
use virtual_time_synchroniza.Floats.Fixed.{fixed, fixed-IsExact, fixed-IsMonotone, quotient}
use virtual_time_synchroniza.Timer.{
  Shared, HostTime, get_clock, virtual_now, cpu_get_clock_copy, cpu_get_ticks_copy, read_ticks,
  stop_clocks,
}
use virtual_time_synchroniza.Timer.Readers.{cpu_get_clock, cpu_get_ticks}
use virtual_time_synchroniza.Timer.Readers.Returns.{
  Ends, IsShown, IsSlow, IsSettled, WritesStopped, cpu_get_clock-returns, cpu_get_clock-Shown,
}
use virtual_time_synchroniza.Timer.Readers.Stop.{
  half_stopped, clear_flag, cpu_get_clock-half_stopped,
}
use virtual_time_synchroniza.Timer.Readers.Ticks.{cpu_get_ticks-alone}
use virtual_time_synchroniza.Timer.Tests.{at, running}

-- The clocks of `running`, frozen at 155.
abbrev stopped : Shared
stopped = record {
  timers = record (running.timers) { cpu_clock_offset = pos 155; cpu_ticks_enabled = false };
  tdf = pos 4000;
  simulators = running.simulators;
}

-- The clocks are stopped before the fifth access.
abbrev stopping : ℕ → Shared
stopping k = if ltb k 5 then running else stopped

stopping-IsSettled : IsSettled stopping 5
stopping-IsSettled k h = ground arith

stopping-IsSlow : IsSlow stopping
stopping-IsSlow i j m a b c e = ground arith

stopping-WritesStopped : WritesStopped stopping
stopping-WritesStopped k m e on on' = ground arith

stopping_value : cpu_get_clock 2 true stopping (λ _. at 200) 0 ≡ some (pos 155)
unfolding cpu_get_clock
stopping_value = refl

cpu_get_clock-returns_example : Ends (cpu_get_clock 2 true stopping (λ _. at 200) 0)
cpu_get_clock-returns_example =
    cpu_get_clock-returns 1 true stopping (λ _. at 200) 5 0 stopping-IsSettled (omega arith)

cpu_get_clock-Shown_example : IsShown true stopping (λ _. at 200) 0 (pos 155)
cpu_get_clock-Shown_example =
    cpu_get_clock-Shown 2 true stopping (λ _. at 200) 0 stopping-IsSlow stopping-WritesStopped
      stopping_value

-- The clocks, stopped and started again.
abbrev restarted : Shared
restarted = record {
  timers = record (running.timers) { cpu_clock_offset = negsuc 44; cpu_clock_restart = pos 200 };
  tdf = pos 4000;
  simulators = running.simulators;
}

-- The clocks are stopped and started between the read of the restart and that of the TDF.
abbrev too_fast : ℕ → Shared
too_fast k = if ltb k 5 then running else restarted

-- A reader that does not notice it gets a time that the clock showed neither before nor after: it
-- is 155 at both.
torn :
    (cpu_get_clock 1 true too_fast (λ _. at 200) 0 ≡ some (pos 80))
    × (cpu_get_clock_copy true running (at 200) ≡ pos 155)
    × (cpu_get_clock_copy true restarted (at 200) ≡ pos 155)
unfolding cpu_get_clock cpu_get_clock_copy virtual_now get_clock ◌*ℤ◌ ◌+ℤ◌ ◌-ℤ◌ quotient
torn = (refl, refl, refl)

-- Another process starts the clocks before the second access.
abbrev starting : ℕ → Shared → Shared
starting k s = if k == 1 then running else s

cpu_get_ticks-alone_example :
    cpu_get_ticks 1 (λ _ m. m) (λ _. at 200) 0 running
    ≡ some (
      record running { timers = (cpu_get_ticks_copy running (at 200)).0 },
      (cpu_get_ticks_copy running (at 200)).1,
    )
cpu_get_ticks-alone_example = cpu_get_ticks-alone 0 (λ _. at 200) 0 running

-- The clock shows 155 at 200, and a reader that falls into the stop gets 305.
doubled :
    (cpu_get_clock 1 true (λ _. half_stopped true running (at 200)) (λ _. at 200) 0
      ≡ some (pos 305))
    × (cpu_get_clock_copy true running (at 200) ≡ pos 155)
unfolding cpu_get_clock half_stopped cpu_get_ticks_copy read_ticks cpu_get_clock_copy virtual_now
    get_clock ◌*ℤ◌ ◌+ℤ◌ ◌-ℤ◌ quotient
doubled = (refl, refl)

cpu_get_clock-half_stopped_example :
    (v : ℤ) × (cpu_get_clock 1 true (λ _. half_stopped true running (at 200)) (λ _. at 200) 0
      ≡ some v)
    × ((pos 100 +ℤ cpu_get_clock_copy true running (at 200)) ≤ℤ v)
    × (clear_flag (half_stopped true running (at 200)) ≡ stop_clocks true running (at 200))
    × ((later : HostTime)
        → cpu_get_clock_copy true (clear_flag (half_stopped true running (at 200))) later
          ≡ cpu_get_clock_copy true running (at 200))
unfolding cpu_get_clock_copy virtual_now get_clock ◌*ℤ◌ ◌+ℤ◌ ◌-ℤ◌ quotient
cpu_get_clock-half_stopped_example =
    cpu_get_clock-half_stopped fixed-IsExact fixed-IsMonotone 0 true running (at 200) (λ _. at 200)
      0 refl refl (omega arith) (omega arith) (omega arith) (omega arith, (refl, refl))
      (omega arith)
