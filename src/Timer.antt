-- ===== src/Timer.antt =====
-- virtualagent/shared/qemu-timer.{h,c} and virtualagent/SharedMemory.{hpp,cpp}: the virtual clocks in
-- shared memory, which run at the speed that the TDF gives, and stop and go. An `int64_t` is an
-- integer (its overflow is undefined in C), and a flag is a Boolean. What the host's clocks show at
-- a call is an argument. The segments themselves are the module Ipc.
pub mod Clocks
pub mod Continuity
pub mod Readers
pub mod Rounds
pub mod Tests
use virtual_time_synchroniza.Prelude.{
  ℕ, zero, suc, ◌+◌, ◌-◌, ◌*◌, ◌^◌, Bool, true, false, not, Option, none, some, ltb, if◌then◌else◌,
}
use virtual_time_synchroniza.Prelude.Int.{ℤ, pos, negsuc, ◌+ℤ◌, ◌-ℤ◌, ◌*ℤ◌, ◌/ℤ◌, ltb_ℤ}
use virtual_time_synchroniza.Floats.{Floats}

pub record TimersState : Type 0 where
  pub cpu_ticks_prev : ℤ
  pub cpu_ticks_offset : ℤ
  pub cpu_ticks_restart : ℤ
  pub cpu_ticks_log : ℤ
  pub cpu_clock_offset : ℤ
  pub cpu_clock_restart : ℤ
  pub cpu_clock_log : ℤ
  pub cpu_ticks_enabled : Bool
  pub dummy : ℤ

-- Both are `uint64_t`.
pub record SimulatorsState : Type 0 where
  pub time : ℕ
  pub overhead_delay : ℕ

-- What `gettimeofday`, `clock_gettime(CLOCK_MONOTONIC)` and `rdtsc` return.
pub record HostTime : Type 0 where
  pub tv_sec : ℤ
  pub tv_usec : ℤ
  pub ts_sec : ℤ
  pub ts_nsec : ℤ
  pub tsc_high : ℕ
  pub tsc_low : ℕ

pub get_clock_realtime : HostTime → ℤ
get_clock_realtime h = h.tv_sec *ℤ pos 1_000_000_000 +ℤ h.tv_usec *ℤ pos 1000

-- The flag is `use_rt_clock`: `init_get_clock` sets it where the monotonic clock works.
unfoldable pub get_clock : Bool → HostTime → ℤ
unfolding get_clock_realtime
get_clock use_rt_clock h =
    if use_rt_clock then h.ts_sec *ℤ pos 1_000_000_000 +ℤ h.ts_nsec else get_clock_realtime h

-- Two 32-bit halves make an `int64_t`.
unfoldable pub cpu_get_real_ticks : HostTime → ℤ
cpu_get_real_ticks h =
    let val = h.tsc_high * 2 ^ 32 + h.tsc_low in
    if ltb val (2 ^ 63) then pos val else negsuc (2 ^ 64 - val - 1)

module _ ⦃fl : Floats⦄ where
  open fl use {LongDouble, l}

  -- The three shared segments.
  pub record Shared : Type 0 where
    pub timers : TimersState
    pub tdf : LongDouble
    pub simulators : SimulatorsState

  -- `restart + (now - restart) / *tdf + offset`, computed in `long double` and cut to `int64_t`.
  unfoldable pub virtual_now : ℤ → ℤ → LongDouble → ℤ → ℤ
  virtual_now restart offset tdf now =
      l.to_int
        (l.add (l.add (l.of_int restart) (l.div (l.of_int (now -ℤ restart)) tdf)) (l.of_int offset))

  -- `__cpu_get_clock`
  unfoldable pub cpu_get_clock_copy : Bool → Shared → HostTime → ℤ
  cpu_get_clock_copy use_rt_clock s h =
      if not s.timers.cpu_ticks_enabled
      then s.timers.cpu_clock_offset
      else virtual_now s.timers.cpu_clock_restart s.timers.cpu_clock_offset s.tdf
          (get_clock use_rt_clock h)

  -- The offset after the correction for a host whose ticks went back.
  unfoldable pub ticks_offset : TimersState → LongDouble → ℤ → ℤ
  ticks_offset t tdf ticks =
      if ltb_ℤ ticks t.cpu_ticks_prev
      then l.to_int
          (l.add (l.of_int t.cpu_ticks_offset) (l.div (l.of_int (t.cpu_ticks_prev -ℤ ticks)) tdf))
      else t.cpu_ticks_offset

  -- The new timers and the value returned, where the clocks run.
  unfoldable pub read_ticks : Shared → ℤ → TimersState × ℤ
  unfolding ticks_offset
  read_ticks s ticks =
      let offset = ticks_offset s.timers s.tdf ticks in
      (
        record (s.timers) { cpu_ticks_prev = ticks; cpu_ticks_offset = offset },
        virtual_now s.timers.cpu_ticks_restart offset s.tdf ticks,
      )

  -- `__cpu_get_ticks`
  unfoldable pub cpu_get_ticks_copy : Shared → HostTime → TimersState × ℤ
  cpu_get_ticks_copy s h =
      if not s.timers.cpu_ticks_enabled
      then (s.timers, s.timers.cpu_ticks_offset)
      else read_ticks s (cpu_get_real_ticks h)

  unfoldable pub cpu_enable_ticks : Bool → Shared → HostTime → Shared
  cpu_enable_ticks use_rt_clock s h =
      let t = s.timers in
      let real_clock = get_clock use_rt_clock h in
      let real_ticks = cpu_get_real_ticks h in
      if not t.cpu_ticks_enabled
      then record s {
        timers = record t {
          cpu_ticks_offset = t.cpu_ticks_offset -ℤ real_ticks;
          cpu_ticks_restart = real_ticks;
          cpu_clock_offset = t.cpu_clock_offset -ℤ real_clock;
          cpu_clock_restart = real_clock;
          cpu_ticks_enabled = true;
        };
      }
      else s

  -- The body of `cpu_disable_ticks`. The ticks are read first, which changes the timers.
  unfoldable pub stop_clocks : Bool → Shared → HostTime → Shared
  stop_clocks use_rt_clock s h =
      let (t, ticks) = cpu_get_ticks_copy s h in
      let t' : TimersState = record t { cpu_ticks_offset = ticks } in
      record s {
        timers = record t' {
          cpu_clock_offset = cpu_get_clock_copy use_rt_clock (record s { timers = t' }) h;
          cpu_ticks_enabled = false;
        };
      }

  unfoldable pub cpu_disable_ticks : Bool → Shared → HostTime → Shared
  cpu_disable_ticks use_rt_clock s h =
      if s.timers.cpu_ticks_enabled then stop_clocks use_rt_clock s h else s

  -- `SharedMemory::getTdf`
  unfoldable pub get_tdf : Shared → LongDouble
  get_tdf s = s.tdf

  -- `SharedMemory::setTdf`
  unfoldable pub set_tdf : LongDouble → Shared → Shared
  set_tdf tdf_val s = record s { tdf = tdf_val }

  -- The same of `shared/qemu-timer.c`.
  unfoldable pub tdf_set : LongDouble → Shared → Shared
  unfolding set_tdf
  tdf_set tr s = set_tdf tr s

  -- `timers_state_create`, which leaves the field `cpu_ticks_restart` as the segment has it.
  unfoldable pub timers_state_create : Bool → TimersState → HostTime → TimersState
  timers_state_create use_rt_clock old h =
      let curr_ticks = cpu_get_real_ticks h in
      let curr_clock = get_clock use_rt_clock h in
      record old {
        cpu_ticks_prev = curr_ticks;
        cpu_ticks_offset = curr_ticks;
        cpu_ticks_log = curr_ticks;
        cpu_clock_offset = curr_clock;
        cpu_clock_restart = curr_clock;
        cpu_clock_log = curr_clock;
        cpu_ticks_enabled = false;
        dummy = pos 0;
      }

  -- `SharedMemory::create`, which runs before `init_clocks` has set `use_rt_clock`.
  unfoldable pub create : TimersState → HostTime → Shared
  create old h = record {
    timers = timers_state_create false old h;
    tdf = l.lit 10 1;
    simulators = record { time = 0; overhead_delay = 0 };
  }

-- `vm_gettimeofday`: the seconds and the microseconds of a time in nanoseconds.
unfoldable pub vm_gettimeofday : ℤ → ℤ × ℤ
vm_gettimeofday vm_time =
    let sec = vm_time /ℤ pos 1_000_000_000 in
    (sec, (vm_time -ℤ sec *ℤ pos 1_000_000_000) /ℤ pos 1000)

pub data ClockType : Type 0 where
  clock_realtime clock_virtual clock_host : ClockType

module _ ⦃fl : Floats⦄ where
  -- `qemu_get_clock` and `qemu_get_clock_ns`, where nobody writes to the shared memory meanwhile.
  unfoldable pub qemu_get_clock : ClockType → Bool → Shared → HostTime → ℤ
  qemu_get_clock clock_realtime use_rt_clock s h = get_clock use_rt_clock h /ℤ pos 1_000_000
  qemu_get_clock clock_virtual use_rt_clock s h = cpu_get_clock_copy use_rt_clock s h
  qemu_get_clock clock_host use_rt_clock s h = get_clock_realtime h

  unfoldable pub qemu_get_clock_ns : ClockType → Bool → Shared → HostTime → ℤ
  qemu_get_clock_ns clock_realtime use_rt_clock s h = get_clock use_rt_clock h
  qemu_get_clock_ns clock_virtual use_rt_clock s h = cpu_get_clock_copy use_rt_clock s h
  qemu_get_clock_ns clock_host use_rt_clock s h = get_clock_realtime h
