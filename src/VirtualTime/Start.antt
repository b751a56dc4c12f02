-- ===== src/VirtualTime/Start.antt =====
-- The start of the virtual time.
use virtual_time_synchroniza.Prelude.{
  ◌≡◌, ◌<◌, refl, ap, Bool, true, false, done, arith, length, set,
}
use virtual_time_synchroniza.Prelude.Int.{◌-ℤ◌}
use virtual_time_synchroniza.Floats.{Floats, FitsInt64, IsExact}
use virtual_time_synchroniza.Timer.{
  TimersState, HostTime, get_clock, cpu_enable_ticks, timers_state_create,
}
use virtual_time_synchroniza.Timer
use virtual_time_synchroniza.Timer.Continuity.{IsPositive}
use virtual_time_synchroniza.Timer.Rounds.{create_start}
use virtual_time_synchroniza.Semaphore.{semaphore_waitforzero, vir_host, passed}
use virtual_time_synchroniza.Semaphore.Laws.{semaphore_setval_done, waitforzero-setval}
use virtual_time_synchroniza.Agent.{Agent, set_hosts, start_time}
use virtual_time_synchroniza.Message.Suspend.{shows}
use virtual_time_synchroniza.VirtualTime.{start, init_get_clock}

module _ ⦃fl : Floats⦄ where
  open fl use {l}

  -- After the start on shared memory that was just created, the virtual clock runs and shows at
  -- that moment the time of day at which the memory was created, whichever clock of the host it
  -- runs on, the TDF in the shared memory is 1.0, and the hosts pass. The literal 1.0 has to be
  -- positive, the semaphore has to exist, and the times have to fit `int64_t`.
  pub start_lem :
      (exact : IsExact l) (works : Bool) (old : TimersState) (created h : HostTime) (a : Agent)
      → a.shared ≡ Timer.create old created
      → 0 < length a.semaphores
      → IsPositive (l.lit 10 1)
      → FitsInt64 (get_clock false created)
      → FitsInt64 (get_clock works h)
      → FitsInt64 (get_clock false created -ℤ get_clock works h)
      → (a' : Agent) × (start works h a ≡ done a')
        × (a'.shared.timers.cpu_ticks_enabled ≡ true)
        × (a'.shared.tdf ≡ l.lit 10 1)
        × (shows a' h ≡ get_clock false created)
        × (semaphore_waitforzero a'.semaphores vir_host ≡ done (passed a'.semaphores))
  unfolding start init_get_clock set_hosts start_time
  start_lem exact works old created h a fresh some_sem p fc fh fd =
      let shared' = cpu_enable_ticks works (Timer.create old created) h in
      (
        record a { use_rt_clock = works; shared = shared'; semaphores = set a.semaphores 0 0 },
        rw (semaphore_setval_done a.semaphores 0 0 some_sem (omega arith)) (
            ap
              (λ s. done (record a {
                use_rt_clock = works;
                shared = cpu_enable_ticks works s h;
                semaphores = set a.semaphores 0 0;
              }))
              fresh),
        unfold cpu_enable_ticks Timer.create timers_state_create in refl,
        unfold cpu_enable_ticks Timer.create timers_state_create in refl,
        create_start exact old created h works p fc fh fd,
        waitforzero-setval a.semaphores 0 0 some_sem (omega arith)
            (semaphore_setval_done a.semaphores 0 0 some_sem (omega arith)),
      )
