-- ===== src/Message/Suspend.antt =====
-- Protocols 30 and 31 together: the hosts are held and the clock stands still, and then both go on.
use virtual_time_synchroniza.Prelude.{
  ◌≡◌, ◌<◌, Bool, true, Bytes, [], ◌∷◌, done, arith, length, set,
}
use virtual_time_synchroniza.Prelude.Int.{ℤ, ◌-ℤ◌}
use virtual_time_synchroniza.Floats.{Floats, FitsInt64, IsExact}
use virtual_time_synchroniza.Semaphore.{semaphore_waitforzero, vir_host, passed, blocked}
use virtual_time_synchroniza.Semaphore.Laws.{semaphore_setval_done, waitforzero-setval}
use virtual_time_synchroniza.Timer.{
  Shared, stop_clocks, HostTime, get_clock, cpu_get_clock_copy, cpu_enable_ticks, cpu_disable_ticks,
  set_tdf,
}
use virtual_time_synchroniza.Timer.Continuity.{
  IsPositive, resume_continuous, cpu_disable_ticks_freezes,
}
use virtual_time_synchroniza.Agent.{Agent, set_hosts, stop_time, start_time}
use virtual_time_synchroniza.Message.Tcp.{suspend, resume}
use virtual_time_synchroniza.Message.Handlers.{length-set}

module _ ⦃fl : Floats⦄ where
  open fl use {l}

  -- What the clock of the hosts shows.
  abbrev pub shows : Agent → HostTime → ℤ
  shows a h = cpu_get_clock_copy a.use_rt_clock a.shared h

  tdf_untouched :
      (rt : Bool) (s : Shared) (h : HostTime)
      → set_tdf s.tdf (cpu_disable_ticks rt s h) ≡ cpu_disable_ticks rt s h
  unfolding set_tdf cpu_disable_ticks stop_clocks
  tdf_untouched rt s h = ground arith

  -- After protocol 30 the hosts that wait for their turn are held and the clock stands still;
  -- after a protocol 31 that follows they pass, and the clock goes on from where it stood, with no
  -- gap. The clock has to run before, with a positive TDF, the semaphore has to exist, and the
  -- times have to fit `int64_t`.
  pub resume-suspend :
      (exact : IsExact l) (a : Agent) (t1 t2 : Bytes) (stop start : HostTime)
      → 0 < length a.semaphores
      → a.shared.timers.cpu_ticks_enabled ≡ true
      → IsPositive a.shared.tdf
      → FitsInt64 (shows a stop)
      → FitsInt64 (get_clock a.use_rt_clock start)
      → FitsInt64 (shows a stop -ℤ get_clock a.use_rt_clock start)
      → (held going : Agent) × (suspend stop (t1 ∷ []) a ≡ done held)
        × (semaphore_waitforzero held.semaphores vir_host ≡ done blocked)
        × ((later : HostTime) → shows held later ≡ shows a stop)
        × (resume start (t2 ∷ []) held ≡ done going)
        × (semaphore_waitforzero going.semaphores vir_host ≡ done (passed going.semaphores))
        × (shows going start ≡ shows a stop)
  unfolding suspend resume set_hosts stop_time start_time
  resume-suspend exact a t1 t2 stop start some_sem on p fs fn fd = (
    record a { semaphores = set a.semaphores 0 1; shared = stopped },
    record a {
      semaphores = set (set a.semaphores 0 1) 0 0;
      shared = cpu_enable_ticks a.use_rt_clock stopped start;
    },
    rw (semaphore_setval_done a.semaphores 0 1 some_sem (omega arith)),
    waitforzero-setval a.semaphores 0 1 some_sem (omega arith)
        (semaphore_setval_done a.semaphores 0 1 some_sem (omega arith)),
    λ later.
        rw same at (cpu_disable_ticks_freezes a.use_rt_clock a.shared stop later a.shared.tdf on),
    rw (semaphore_setval_done (set a.semaphores 0 1) 0 0 still (omega arith)),
    waitforzero-setval (set a.semaphores 0 1) 0 0 still (omega arith)
        (semaphore_setval_done (set a.semaphores 0 1) 0 0 still (omega arith)),
    rw same at
        (resume_continuous exact a.use_rt_clock a.shared stop start a.shared.tdf on p fs fn fd),
  )
    where
      stopped : Shared
      stopped = cpu_disable_ticks a.use_rt_clock a.shared stop

      same : set_tdf a.shared.tdf stopped ≡ stopped
      same = tdf_untouched a.use_rt_clock a.shared stop

      still : 0 < length (set a.semaphores 0 1)
      still = omega (arith, length-set a.semaphores 0 1)
