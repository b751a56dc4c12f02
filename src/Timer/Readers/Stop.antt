-- ===== src/Timer/Readers/Stop.antt =====
-- virtualagent/shared/qemu-timer.c: the three stores of cpu_disable_ticks, of which a reader without a lock can
-- see the first ones without the last.
use virtual_time_synchroniza.Prelude.{ℕ, suc, ◌+◌, ◌≡◌, refl, Bool, true, false, some, arith}
use virtual_time_synchroniza.Prelude.Int.{ℤ, ◌+ℤ◌, ◌≤ℤ◌}
use virtual_time_synchroniza.Floats.{Floats, FitsInt64, IsExact, IsMonotone}
use virtual_time_synchroniza.Timer.{
  Shared, HostTime, get_clock, virtual_now, cpu_get_clock_copy, cpu_get_ticks_copy, read_ticks,
  stop_clocks,
}
use virtual_time_synchroniza.Timer.Continuity.{IsPositive, VirtualNowFits, virtual_now_least}
use virtual_time_synchroniza.Timer.Readers.{cpu_get_clock}

module _ ⦃fl : Floats⦄ where
  open fl use {l}

  -- `timers_state->cpu_ticks_offset = __cpu_get_ticks()`
  unfoldable pub store_ticks : Shared → HostTime → Shared
  store_ticks s h =
      let (t, ticks) = cpu_get_ticks_copy s h in
      record s { timers = record t { cpu_ticks_offset = ticks } }

  -- `timers_state->cpu_clock_offset = __cpu_get_clock()`
  unfoldable pub store_clock : Bool → Shared → HostTime → Shared
  store_clock use_rt_clock s h = record s {
    timers = record (s.timers) { cpu_clock_offset = cpu_get_clock_copy use_rt_clock s h };
  }

  -- `timers_state->cpu_ticks_enabled = 0`
  unfoldable pub clear_flag : Shared → Shared
  clear_flag s = record s { timers = record (s.timers) { cpu_ticks_enabled = false } }

  -- The memory between the second store and the third.
  unfoldable pub half_stopped : Bool → Shared → HostTime → Shared
  unfolding store_ticks store_clock
  half_stopped use_rt_clock s h = store_clock use_rt_clock (store_ticks s h) h

  -- The three stores make a stop.
  pub clear_flag-half_stopped :
      (rt : Bool) (s : Shared) (h : HostTime)
      → clear_flag (half_stopped rt s h) ≡ stop_clocks rt s h
  unfolding half_stopped store_clock store_ticks clear_flag stop_clocks
  clear_flag-half_stopped rt s h = refl

  half_stopped_value :
      (fuel : ℕ) (rt : Bool) (s : Shared) (h : HostTime) (host : ℕ → HostTime) (k : ℕ)
      → s.timers.cpu_ticks_enabled ≡ true
      → cpu_get_clock (suc fuel) rt (λ _. half_stopped rt s h) host k
        ≡ some (
            virtual_now s.timers.cpu_clock_restart
              (cpu_get_clock_copy rt s h)
              s.tdf
              (get_clock rt (host (k + 3))))
  unfolding cpu_get_clock half_stopped store_clock store_ticks cpu_get_ticks_copy read_ticks
      cpu_get_clock_copy
  half_stopped_value fuel rt s h host k on = ground arith

  half_stopped_cleared :
      (rt : Bool) (s : Shared) (h later : HostTime)
      → s.timers.cpu_ticks_enabled ≡ true
      → cpu_get_clock_copy rt (clear_flag (half_stopped rt s h)) later ≡ cpu_get_clock_copy rt s h
  unfolding half_stopped store_clock store_ticks clear_flag cpu_get_ticks_copy read_ticks
      cpu_get_clock_copy
  half_stopped_cleared rt s h later on = ground arith

  -- The stop of running clocks stores the time that they show as the offset before it clears the flag. A reader
  -- whose round falls between these two stores returns in that round, with a time that is ahead of the one
  -- shown at the stop by at least the host's time of the last restart. The third store makes the memory that
  -- of the stopped clocks, which show the time of the stop from then on. The TDF has to be positive, the
  -- host's clock not to have gone back since the restart, and the values have to fit `int64_t`.
  pub cpu_get_clock-half_stopped :
      (exact : IsExact l) (mono : IsMonotone l) (fuel : ℕ) (rt : Bool) (s : Shared) (h : HostTime)
      (host : ℕ → HostTime) (k : ℕ)
      → s.timers.cpu_ticks_enabled ≡ true
      → IsPositive s.tdf
      → FitsInt64 s.timers.cpu_clock_restart
      → FitsInt64 (cpu_get_clock_copy rt s h)
      → FitsInt64 (s.timers.cpu_clock_restart +ℤ cpu_get_clock_copy rt s h)
      → VirtualNowFits s.timers.cpu_clock_restart
          (cpu_get_clock_copy rt s h)
          s.tdf
          (get_clock rt (host (k + 3)))
      → s.timers.cpu_clock_restart ≤ℤ get_clock rt (host (k + 3))
      → (v : ℤ) × (cpu_get_clock (suc fuel) rt (λ _. half_stopped rt s h) host k ≡ some v)
        × ((s.timers.cpu_clock_restart +ℤ cpu_get_clock_copy rt s h) ≤ℤ v)
        × (clear_flag (half_stopped rt s h) ≡ stop_clocks rt s h)
        × ((later : HostTime)
            → cpu_get_clock_copy rt (clear_flag (half_stopped rt s h)) later
              ≡ cpu_get_clock_copy rt s h)
  cpu_get_clock-half_stopped exact mono fuel rt s h host k on p fr fo fs fits risen =
      let now = get_clock rt (host (k + 3)) in
      (
        virtual_now s.timers.cpu_clock_restart (cpu_get_clock_copy rt s h) s.tdf now,
        half_stopped_value fuel rt s h host k on,
        virtual_now_least exact mono s.timers.cpu_clock_restart (cpu_get_clock_copy rt s h) now
            s.tdf p fr fo fs fits risen,
        clear_flag-half_stopped rt s h,
        λ later. half_stopped_cleared rt s h later on,
      )
