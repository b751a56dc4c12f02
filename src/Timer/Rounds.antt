-- ===== src/Timer/Rounds.antt =====
-- Any number of stops and starts: the virtual clock never goes back. Also the tick counter across
-- one stop, the lock-free loop of the readers, and the program's start.
use virtual_time_synchroniza.Prelude.{◌≡◌, refl, Bool, true, false, List, [], ◌∷◌, arith}
use virtual_time_synchroniza.Prelude.Int.{◌-ℤ◌, ◌≤ℤ◌, ltb_ℤ}
use virtual_time_synchroniza.Floats.{Floats, FitsInt64, IsExact, IsMonotone}
use virtual_time_synchroniza.Timer.{
  TimersState, Shared, HostTime, get_clock, cpu_get_real_ticks, cpu_get_clock_copy,
  cpu_get_ticks_copy, read_ticks, cpu_enable_ticks, cpu_disable_ticks, stop_clocks, set_tdf, create,
  timers_state_create,
}
use virtual_time_synchroniza.Timer.Continuity.{
  IsPositive, virtual_now-restart, VirtualNowFits, virtual_now_mono, stopped_state,
  resume_continuous, cpu_enable_ticks_resumes,
}

module _ ⦃fl : Floats⦄ where
  open fl use {LongDouble, l}

  -- One stop of the clocks, with the TDF that is set before the next start.
  pub record Round : Type 0 where
    pub stop : HostTime
    pub new_tdf : LongDouble
    pub start : HostTime

  unfoldable pub play : Bool → Shared → Round → Shared
  play rt s r = cpu_enable_ticks rt (set_tdf r.new_tdf (cpu_disable_ticks rt s r.stop)) r.start

  unfoldable pub play_all : Bool → Shared → List Round → Shared
  play_all rt s [] = s
  play_all rt s (r ∷ rs) = play_all rt (play rt s r) rs

  abbrev pub IsRunning : Shared → Type 0
  IsRunning s = (s.timers.cpu_ticks_enabled ≡ true) × IsPositive s.tdf

  -- The times of a round fit `int64_t`, and the TDF that it sets is positive.
  abbrev pub IsRound : Bool → Shared → Round → Type 0
  IsRound rt s r =
      IsPositive r.new_tdf
      × FitsInt64 (cpu_get_clock_copy rt s r.stop)
      × FitsInt64 (get_clock rt r.start)
      × FitsInt64 (cpu_get_clock_copy rt s r.stop -ℤ get_clock rt r.start)

  -- What a reader of the running clock computes fits `int64_t`.
  abbrev pub ClockFits : Bool → Shared → HostTime → Type 0
  ClockFits rt s h =
      VirtualNowFits s.timers.cpu_clock_restart s.timers.cpu_clock_offset s.tdf (get_clock rt h)

  -- A time in which the clock runs: the host's clock rises, and the values fit at both ends.
  abbrev pub IsStretch : Bool → Shared → HostTime → HostTime → Type 0
  IsStretch rt s now later =
      (get_clock rt now ≤ℤ get_clock rt later) × ClockFits rt s now × ClockFits rt s later

  -- The rounds come one after the other on the host's clock, between `now` and `later`.
  abbrev pub IsHistory : Bool → Shared → HostTime → List Round → HostTime → Type 0
  IsHistory rt s now [] later = IsStretch rt s now later
  IsHistory rt s now (r ∷ rs) later =
      IsStretch rt s now r.stop × IsRound rt s r × IsHistory rt (play rt s r) r.start rs later

  play-IsRunning :
      (rt : Bool) (s : Shared) (r : Round)
      → s.timers.cpu_ticks_enabled ≡ true
      → IsPositive r.new_tdf
      → IsRunning (play rt s r)
  unfolding play cpu_enable_ticks
  play-IsRunning rt s r on p =
      let (off, shows, now_t) = stopped_state rt s r.stop r.new_tdf on in rw off (refl, rw now_t p)

  running_mono :
      (mono : IsMonotone l) (rt : Bool) (s : Shared) (now later : HostTime)
      → IsRunning s
      → IsStretch rt s now later
      → cpu_get_clock_copy rt s now ≤ℤ cpu_get_clock_copy rt s later
  unfolding cpu_get_clock_copy
  running_mono mono rt s now later (on, p) (h, fn, fk) =
      rw on (virtual_now_mono mono _ _ _ _ _ p fn fk h)

  module _ (exact : IsExact l) where
    play_continuous :
        (rt : Bool) (s : Shared) (r : Round)
        → IsRunning s
        → IsRound rt s r
        → cpu_get_clock_copy rt (play rt s r) r.start ≡ cpu_get_clock_copy rt s r.stop
    unfolding play
    play_continuous rt s r (on, _) (p, fs, fn, fd) =
        resume_continuous exact rt s r.stop r.start r.new_tdf on p fs fn fd

    -- From any running state, through any number of stops, each with a TDF of its own, the virtual
    -- clock shows at the end no less than it showed at the beginning, as long as the host's clock
    -- rises from each start to the next stop, every TDF is positive, and the times and what the readers
    -- compute at the ends of each stretch fit `int64_t`.
    pub play_all_mono :
        (mono : IsMonotone l) (rt : Bool) (s : Shared) (now : HostTime) (rs : List Round)
        (later : HostTime)
        → IsRunning s
        → IsHistory rt s now rs later
        → cpu_get_clock_copy rt s now ≤ℤ cpu_get_clock_copy rt (play_all rt s rs) later
    unfolding play_all
    play_all_mono mono rt s now [] later run h = running_mono mono rt s now later run h
    play_all_mono mono rt s now (r ∷ rs) later run (before, round, after) =
        let up = running_mono mono rt s now r.stop run before in
        let same = play_continuous rt s r run round in
        let rest =
          play_all_mono mono rt (play rt s r) r.start rs later (play-IsRunning rt s r run.0 round.0)
            after in
        omega (arith, rw same at rest)

    -- A stop of running ticks, a change to a positive TDF and a start leave no gap in the tick
    -- counter either, where the host's own counter did not go back from the stop to the start. The
    -- values have to fit `int64_t`.
    pub resume_ticks_continuous :
        (rt : Bool) (s : Shared) (stop start : HostTime) (t : LongDouble)
        → s.timers.cpu_ticks_enabled ≡ true
        → IsPositive t
        → ltb_ℤ (cpu_get_real_ticks start) (cpu_get_real_ticks stop) ≡ false
        → FitsInt64 (cpu_get_ticks_copy s stop).1
        → FitsInt64 (cpu_get_real_ticks start)
        → FitsInt64 ((cpu_get_ticks_copy s stop).1 -ℤ cpu_get_real_ticks start)
        → (cpu_get_ticks_copy
            (cpu_enable_ticks rt (set_tdf t (cpu_disable_ticks rt s stop)) start)
            start).1
          ≡ (cpu_get_ticks_copy s stop).1
    unfolding cpu_enable_ticks cpu_disable_ticks stop_clocks cpu_get_ticks_copy read_ticks set_tdf
    resume_ticks_continuous rt s stop start t on p forward fs fn fd =
        let shown = (cpu_get_ticks_copy s stop).1 in
        ground (arith, virtual_now-restart exact shown (cpu_get_real_ticks start) t p fs fn fd)

    -- The virtual clock, created and then started, shows at the start the time of day at which the
    -- shared memory was created, also where the clock that runs from then on is the monotonic one.
    -- The literal 1.0 has to be positive, and the times have to fit `int64_t`.
    pub create_start :
        (old : TimersState) (created started : HostTime) (rt : Bool)
        → IsPositive (l.lit 10 1)
        → FitsInt64 (get_clock false created)
        → FitsInt64 (get_clock rt started)
        → FitsInt64 (get_clock false created -ℤ get_clock rt started)
        → cpu_get_clock_copy rt (cpu_enable_ticks rt (create old created) started) started
          ≡ get_clock false created
    unfolding create timers_state_create
    create_start old created started rt p fs fn fd =
        cpu_enable_ticks_resumes exact rt (create old created) started refl p fs fn fd
