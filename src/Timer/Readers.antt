-- ===== src/Timer/Readers.antt =====
-- virtualagent/shared/qemu-timer.c: the readers' loops, cpu_get_clock and cpu_get_ticks, which the
-- processes that share the memory with the agent run without a lock. A round makes a fixed number of
-- accesses at most; `fuel` bounds the rounds. The accesses of an expression are made from left to
-- right, and the restart, which occurs twice in it, is read once.
pub mod Returns
pub mod Stop
pub mod Ticks
mod Tests
use virtual_time_synchroniza.Prelude.{
  ℕ, zero, suc, ◌+◌, Bool, true, false, not, Option, none, some, if◌then◌else◌,
}
use virtual_time_synchroniza.Prelude.Int.{ℤ, pos, ◌+ℤ◌, ◌-ℤ◌, ltb_ℤ}
use virtual_time_synchroniza.Floats.{Floats}
use virtual_time_synchroniza.Timer.{
  TimersState, HostTime, Shared, get_clock, cpu_get_real_ticks, virtual_now,
}

module _ ⦃fl : Floats⦄ where
  open fl use {LongDouble, l}

  -- `view k` is what the memory holds at the loop's k-th access, and `host k` what the host's clocks
  -- show then.
  unfoldable pub cpu_get_clock : ℕ → Bool → (ℕ → Shared) → (ℕ → HostTime) → ℕ → Option ℤ
  cpu_get_clock zero use_rt_clock view host k = none
  cpu_get_clock (suc fuel) use_rt_clock view host k =
      let again = cpu_get_clock fuel use_rt_clock view host (k + 8) in
      let running : Option ℤ =
        (if (view (k + 3)).timers.cpu_ticks_enabled
          then (if (view (k + 7)).timers.cpu_ticks_enabled
              then some (
                  virtual_now (view (k + 4)).timers.cpu_clock_restart
                    (view (k + 6)).timers.cpu_clock_offset (view (k + 5)).tdf
                    (get_clock use_rt_clock (host (k + 3))))
              else again)
          else again) in
      if not (view k).timers.cpu_ticks_enabled
      then (if not (view (k + 2)).timers.cpu_ticks_enabled
          then some (view (k + 1)).timers.cpu_clock_offset
          else running)
      else running

  -- What the other processes do to the memory before the k-th access of this one.
  abbrev pub Others : Type 0
  Others = ℕ → Shared → Shared

  -- `timers_state->cpu_ticks_prev = ticks`
  unfoldable pub store_prev : ℤ → Shared → Shared
  store_prev ticks s = record s { timers = record (s.timers) { cpu_ticks_prev = ticks } }

  -- `timers_state->cpu_ticks_offset = offset`
  unfoldable pub store_offset : ℤ → Shared → Shared
  store_offset offset s = record s { timers = record (s.timers) { cpu_ticks_offset = offset } }

  -- The correction for a host whose ticks went back: four reads and a write of the offset, which
  -- are no atomic step.
  unfoldable pub correct_offset : Others → ℕ → ℤ → Shared → Shared
  correct_offset others k ticks s =
      let s0 = others k s in
      let s1 = others (k + 1) s0 in
      let s2 = others (k + 2) s1 in
      let s3 = others (k + 3) s2 in
      let s4 = others (k + 4) s3 in
      if ltb_ℤ ticks s0.timers.cpu_ticks_prev
      then store_offset
          (l.to_int (
            l.add (l.of_int s1.timers.cpu_ticks_offset)
              (l.div (l.of_int (s2.timers.cpu_ticks_prev -ℤ ticks)) s3.tdf)))
          s4
      else s0

  -- What a round does where it found the flag set: the memory and the value.
  unfoldable pub running_round : Others → ℕ → ℤ → Shared → Shared × ℤ
  running_round others k ticks s =
      let s5 = store_prev ticks (others (k + 5) (correct_offset others k ticks s)) in
      let s6 = others (k + 6) s5 in
      let s7 = others (k + 7) s6 in
      let s8 = others (k + 8) s7 in
      (s8, virtual_now s6.timers.cpu_ticks_restart s8.timers.cpu_ticks_offset s7.tdf ticks)

  -- The second half of a round, from its test of the flag on; `again` is the next round.
  unfoldable pub second_half :
      Others → ℕ → ℤ → Shared → (Shared → Option (Shared × ℤ)) → Option (Shared × ℤ)
  second_half others k ticks s again =
      let s3 = others k s in
      let (s12, value) = running_round others (k + 1) ticks s3 in
      let s13 = others (k + 10) s12 in
      if s3.timers.cpu_ticks_enabled
      then (if s13.timers.cpu_ticks_enabled then some (s13, value) else again s13)
      else again s3

  -- The memory after the loop and the value returned. The loop writes too.
  unfoldable pub cpu_get_ticks : ℕ → Others → (ℕ → HostTime) → ℕ → Shared → Option (Shared × ℤ)
  cpu_get_ticks zero others host k s = none
  cpu_get_ticks (suc fuel) others host k s =
      let again : Shared → Option (Shared × ℤ) = cpu_get_ticks fuel others host (k + 14) in
      let ticks = cpu_get_real_ticks (host (k + 3)) in
      let s0 = others k s in
      let s1 = others (k + 1) s0 in
      let s2 = others (k + 2) s1 in
      if not s0.timers.cpu_ticks_enabled
      then (if not s2.timers.cpu_ticks_enabled
          then some (s2, s1.timers.cpu_ticks_offset)
          else second_half others (k + 3) ticks s2 again)
      else second_half others (k + 3) ticks s0 again
