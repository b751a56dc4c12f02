-- ===== src/Timer/Continuity.antt =====
-- The virtual clock stands still while it is stopped, and goes on from there, whatever TDF was set
-- meanwhile.
use virtual_time_synchroniza.Prelude.{◌≡◌, ◌∙◌, ap, Bool, true, false, arith}
use virtual_time_synchroniza.Prelude.Int.{ℤ, pos, ◌+ℤ◌, ◌-ℤ◌, ◌≤ℤ◌, int_laws}
use virtual_time_synchroniza.Floats.{Floats, FitsInt64, IsExact, InRange, IsMonotone}
use virtual_time_synchroniza.Timer.{
  Shared, HostTime, get_clock, virtual_now, cpu_get_clock_copy, cpu_get_ticks_copy, read_ticks,
  cpu_enable_ticks, cpu_disable_ticks, stop_clocks, set_tdf,
}

sub_self : (a : ℤ) → a -ℤ a ≡ pos 0
sub_self a = omega int_laws

add_zero : (a : ℤ) → a +ℤ pos 0 ≡ a
add_zero a = omega int_laws

add_sub : (a b : ℤ) → a +ℤ (b -ℤ a) ≡ b
add_sub a b = omega int_laws

module _ ⦃fl : Floats⦄ where
  open fl use {LongDouble, l}

  -- A positive TDF, as every TDF of the program is meant to be.
  abbrev pub IsPositive : LongDouble → Type 0
  IsPositive t = l.lt (l.of_int (pos 0)) t ≡ true

  module _ (exact : IsExact l) where
    -- What virtual_now converts at the moment of a restart: the division of zero adds nothing.
    pub value-restart :
        (restart offset : ℤ) (t : LongDouble)
        → IsPositive t
        → FitsInt64 restart
        → FitsInt64 offset
        → FitsInt64 (restart +ℤ offset)
        → l.add
            (l.add (l.of_int restart) (l.div (l.of_int (restart -ℤ restart)) t))
            (l.of_int offset)
          ≡ l.of_int (restart +ℤ offset)
    value-restart restart offset t p fr fo fs = cc (
      sub_self restart,
      exact.zero_div t p,
      exact.add_exact restart (pos 0) fr (omega arith) (rw (add_zero restart) fr),
      add_zero restart,
      exact.add_exact restart offset fr fo fs,
    )

    -- At the moment of the restart the clock shows what it showed when it was stopped.
    pub virtual_now-restart :
        (shown now : ℤ) (t : LongDouble)
        → IsPositive t
        → FitsInt64 shown
        → FitsInt64 now
        → FitsInt64 (shown -ℤ now)
        → virtual_now now (shown -ℤ now) t now ≡ shown
    unfolding virtual_now
    virtual_now-restart shown now t p fs fn fd = cc (
      value-restart now (shown -ℤ now) t p fn fd (rw (add_sub now shown) fs),
      add_sub now shown,
      exact.to_int-of_int shown fs,
    )

  -- The host's time since the restart fits `int64_t`, and so does what virtual_now converts to it.
  abbrev pub VirtualNowFits : ℤ → ℤ → LongDouble → ℤ → Type 0
  VirtualNowFits restart offset t now =
      FitsInt64 (now -ℤ restart)
      × InRange l
          (l.add (l.add (l.of_int restart) (l.div (l.of_int (now -ℤ restart)) t)) (l.of_int offset))

  -- The clock never goes back while it runs and its values fit.
  pub virtual_now_mono :
      (mono : IsMonotone l) (restart offset now later : ℤ) (t : LongDouble)
      → IsPositive t
      → VirtualNowFits restart offset t now
      → VirtualNowFits restart offset t later
      → now ≤ℤ later
      → virtual_now restart offset t now ≤ℤ virtual_now restart offset t later
  unfolding virtual_now
  virtual_now_mono mono restart offset now later t p (fn, rn) (fk, rk) h =
      let number_n = (mono.le_number _ _ rn.0).1 in
      let number_l = (mono.le_number _ _ rk.0).1 in
      let inner_n = (mono.add_number _ _ number_n).0 in
      let inner_l = (mono.add_number _ _ number_l).0 in
      let quotients = mono.div_mono _ _ t fn fk p (omega int_laws) in
      let inner = mono.add_mono_left _ _ _ inner_n inner_l quotients in
      mono.to_int_mono _ _ rn rk (mono.add_mono_right _ _ _ number_n number_l inner)

  -- A running clock shows at least the restart time and the offset together.
  pub virtual_now_least :
      (exact : IsExact l) (mono : IsMonotone l) (restart offset now : ℤ) (t : LongDouble)
      → IsPositive t
      → FitsInt64 restart
      → FitsInt64 offset
      → FitsInt64 (restart +ℤ offset)
      → VirtualNowFits restart offset t now
      → restart ≤ℤ now
      → (restart +ℤ offset) ≤ℤ virtual_now restart offset t now
  virtual_now_least exact mono restart offset now t p fr fo fs fits h =
      let value = value-restart exact restart offset t p fr fo fs in
      let fits_r : VirtualNowFits restart offset t restart =
        (rw (sub_self restart) (omega arith), rw value (mono.of_int-InRange _ fs)) in
      let least : virtual_now restart offset t restart ≡ restart +ℤ offset =
        (unfold virtual_now in ap l.to_int value ∙ exact.to_int-of_int _ fs) in
      rw least at (virtual_now_mono mono restart offset restart now t p fits_r fits h)

  -- A stopped clock shows its offset at any time.
  pub cpu_get_clock_stopped :
      (rt : Bool) (s : Shared) (h : HostTime)
      → s.timers.cpu_ticks_enabled ≡ false
      → cpu_get_clock_copy rt s h ≡ s.timers.cpu_clock_offset
  unfolding cpu_get_clock_copy
  cpu_get_clock_stopped rt s h off = rw off

  -- Stopping a running clock freezes it: from then on, and whatever TDF is set, it shows what it showed at
  -- the moment of the stop.
  pub cpu_disable_ticks_freezes :
      (rt : Bool) (s : Shared) (h later : HostTime) (t : LongDouble)
      → s.timers.cpu_ticks_enabled ≡ true
      → cpu_get_clock_copy rt (set_tdf t (cpu_disable_ticks rt s h)) later
        ≡ cpu_get_clock_copy rt s h
  unfolding cpu_disable_ticks stop_clocks cpu_get_clock_copy cpu_get_ticks_copy read_ticks set_tdf
  cpu_disable_ticks_freezes rt s h later t on = ground arith

  pub stopped_state :
      (rt : Bool) (s : Shared) (h : HostTime) (t : LongDouble)
      → s.timers.cpu_ticks_enabled ≡ true
      → let s' = set_tdf t (cpu_disable_ticks rt s h) in
        (s'.timers.cpu_ticks_enabled ≡ false)
        × (s'.timers.cpu_clock_offset ≡ cpu_get_clock_copy rt s h)
        × (s'.tdf ≡ t)
  unfolding cpu_disable_ticks stop_clocks cpu_get_clock_copy cpu_get_ticks_copy read_ticks set_tdf
  stopped_state rt s h t on = ground arith

  module _ (exact : IsExact l) where
    -- A stopped clock that is started shows, at the moment of the start, its offset.
    pub cpu_enable_ticks_resumes :
        (rt : Bool) (s : Shared) (h : HostTime)
        → s.timers.cpu_ticks_enabled ≡ false
        → IsPositive s.tdf
        → FitsInt64 s.timers.cpu_clock_offset
        → FitsInt64 (get_clock rt h)
        → FitsInt64 (s.timers.cpu_clock_offset -ℤ get_clock rt h)
        → cpu_get_clock_copy rt (cpu_enable_ticks rt s h) h ≡ s.timers.cpu_clock_offset
    unfolding cpu_enable_ticks cpu_get_clock_copy
    cpu_enable_ticks_resumes rt s h off p fs fn fd =
        rw off
          (virtual_now-restart exact s.timers.cpu_clock_offset (get_clock rt h) s.tdf p fs fn fd)

    -- A stop of a running clock, a change of the TDF and a start leave no gap: at the moment of
    -- the start the clock shows what it showed at the moment of the stop, for any TDF before, any
    -- positive TDF after, and however long it stood still. The times have to fit `int64_t`.
    pub resume_continuous :
        (rt : Bool) (s : Shared) (stop start : HostTime) (t : LongDouble)
        → s.timers.cpu_ticks_enabled ≡ true
        → IsPositive t
        → FitsInt64 (cpu_get_clock_copy rt s stop)
        → FitsInt64 (get_clock rt start)
        → FitsInt64 (cpu_get_clock_copy rt s stop -ℤ get_clock rt start)
        → cpu_get_clock_copy rt
            (cpu_enable_ticks rt (set_tdf t (cpu_disable_ticks rt s stop)) start)
            start
          ≡ cpu_get_clock_copy rt s stop
    resume_continuous rt s stop start t on p fs fn fd =
        let (off, shows, now_t) = stopped_state rt s stop t on in
        cpu_enable_ticks_resumes rt (set_tdf t (cpu_disable_ticks rt s stop)) start off (rw now_t p)
          (rw shows fs) fn (rw shows fd)
        ∙ shows
