-- ===== src/VirtualTime/Adjust.antt =====
-- What a round does to the agent: the TDF in force reaches the shared memory and the interfaces, and the
-- clock of the hosts has no gap.
use virtual_time_synchroniza.Prelude.{
  ◌≡◌, ◌<◌, refl, true, false, ◌++◌, done, arith, length, set, inl, inr, Bool-cases,
}
use virtual_time_synchroniza.Prelude.Int.{◌-ℤ◌}
use virtual_time_synchroniza.Floats.{Floats, FitsInt64, IsExact}
use virtual_time_synchroniza.IfaceTable.Laws.{IsValid as IfaceTableIsValid}
use virtual_time_synchroniza.Timer.{
  Shared, HostTime, get_clock, cpu_enable_ticks, cpu_disable_ticks, set_tdf,
}
use virtual_time_synchroniza.Timer.Continuity.{IsPositive, resume_continuous}
use virtual_time_synchroniza.Tc.Update.{
  kept, commands, kept-IsValid, update_interface_attribute_lem,
}
use virtual_time_synchroniza.Semaphore.{Semaphores, semaphore_waitforzero, vir_host, passed}
use virtual_time_synchroniza.Semaphore.Laws.{semaphore_setval_done, waitforzero-setval}
use virtual_time_synchroniza.Agent.{Agent, IsValid, execute, set_hosts, stop_time, start_time}
use virtual_time_synchroniza.Message.Handlers.{length-set}
use virtual_time_synchroniza.Message.Suspend.{shows}
use virtual_time_synchroniza.VirtualTime.{suspends, hold, apply_tdf, release, adjust}

module _ ⦃fl : Floats⦄ where
  open fl use {l}

  -- The shared memory after a round.
  abbrev pub adjusted : HostTime → HostTime → Agent → Shared
  adjusted stop begin a =
      cpu_enable_ticks a.use_rt_clock
        (set_tdf a.tdf_table.latest_tdf (cpu_disable_ticks a.use_rt_clock a.shared stop)) begin

  -- The agent after a round, with the semaphores that it left.
  abbrev pub after_round : HostTime → HostTime → Agent → Agent
  after_round stop begin a = record a {
    shared = adjusted stop begin a;
    iface_table = kept a.iface_table;
    executed = a.executed ++ commands a.tdf_table.latest_tdf a.iface_table;
  }

  adjust_suspending :
      (stop begin : HostTime) (a : Agent)
      → IfaceTableIsValid a.iface_table
      → 0 < length a.semaphores
      → suspends a.config ≡ true
      → adjust stop begin a
        ≡ done (record (after_round stop begin a) { semaphores = set (set a.semaphores 0 1) 0 0 })
  unfolding adjust hold apply_tdf release set_hosts stop_time start_time execute
  adjust_suspending stop begin a v some_sem on =
      rw
        (
          on,
          semaphore_setval_done a.semaphores 0 1 some_sem (omega arith),
          update_interface_attribute_lem a.tdf_table.latest_tdf a.iface_table v,
          on,
          semaphore_setval_done (set a.semaphores 0 1) 0 0
              (omega (arith, length-set a.semaphores 0 1)) (omega arith),
        )
        refl

  adjust_free :
      (stop begin : HostTime) (a : Agent)
      → IfaceTableIsValid a.iface_table
      → suspends a.config ≡ false
      → adjust stop begin a ≡ done (after_round stop begin a)
  unfolding adjust hold apply_tdf release stop_time start_time execute
  adjust_free stop begin a v off =
      rw (off, update_interface_attribute_lem a.tdf_table.latest_tdf a.iface_table v, off) refl

  adjusted_tdf :
      (stop begin : HostTime) (a : Agent) → (adjusted stop begin a).tdf ≡ a.tdf_table.latest_tdf
  unfolding cpu_enable_ticks set_tdf
  adjusted_tdf stop begin a = ground arith

  after_round-IsValid :
      (stop begin : HostTime) (a a' : Agent)
      → IsValid a
      → a'.tdf_table ≡ a.tdf_table
      → a'.iface_table ≡ kept a.iface_table
      → length a'.semaphores ≡ length a.semaphores
      → IsValid a'
  after_round-IsValid stop begin a a' v e f g = record {
    tdf_valid = rw e v.tdf_valid;
    iface_valid = rw f (kept-IsValid a.iface_table v.iface_valid);
    semaphores_all = omega (arith, g, v.semaphores_all);
  }

  -- What a round promises of the agent that it leaves.
  pub record IsAdjusted (stop begin : HostTime) (a a' : Agent) : Type 0 where
    pub valid : IsValid a'
    pub tdf_set : a'.shared.tdf ≡ a.tdf_table.latest_tdf
    pub table_kept : a'.tdf_table ≡ a.tdf_table
    pub interfaces : a'.iface_table ≡ kept a.iface_table
    pub ran : a'.executed ≡ a.executed ++ commands a.tdf_table.latest_tdf a.iface_table
    pub no_gap : shows a' begin ≡ shows a stop
    pub hosts_go :
        suspends a.config ≡ true
        → semaphore_waitforzero a'.semaphores vir_host ≡ done (passed a'.semaphores)
    pub hosts_alone : suspends a.config ≡ false → a'.semaphores ≡ a.semaphores

  module _ (exact : IsExact l) (stop begin : HostTime) (a : Agent) (v : IsValid a)
      (on : a.shared.timers.cpu_ticks_enabled ≡ true) (p : IsPositive a.tdf_table.latest_tdf)
      (fs : FitsInt64 (shows a stop)) (fn : FitsInt64 (get_clock a.use_rt_clock begin))
      (fd : FitsInt64 (shows a stop -ℤ get_clock a.use_rt_clock begin)) where
    -- Whatever semaphores it left, if they are those that the settings ask for.
    after_round-IsAdjusted :
        (s : Semaphores)
        → length s ≡ length a.semaphores
        → (suspends a.config ≡ true → semaphore_waitforzero s vir_host ≡ done (passed s))
        → (suspends a.config ≡ false → s ≡ a.semaphores)
        → IsAdjusted stop begin a (record (after_round stop begin a) { semaphores = s })
    after_round-IsAdjusted s size go alone = record {
      valid =
          after_round-IsValid stop begin a (record (after_round stop begin a) { semaphores = s }) v
            refl refl size;
      tdf_set = adjusted_tdf stop begin a;
      table_kept = refl;
      interfaces = refl;
      ran = refl;
      no_gap =
          resume_continuous exact a.use_rt_clock a.shared stop begin a.tdf_table.latest_tdf on p fs
            fn fd;
      hosts_go = go;
      hosts_alone = alone;
    }

  -- A round on a valid agent whose clock runs succeeds and leaves a valid agent: the TDF in force is
  -- in the shared memory, the interfaces that are not to be kept are gone, the commands for that TDF
  -- have been run after those before, the clock of the hosts shows when it starts again what it showed
  -- when it was stopped, and the hosts that were held pass. Without suspensions the semaphores are
  -- not touched. The TDF has to be positive, and the times have to fit `int64_t`.
  pub adjust_lem :
      (exact : IsExact l) (stop begin : HostTime) (a : Agent)
      → IsValid a
      → a.shared.timers.cpu_ticks_enabled ≡ true
      → IsPositive a.tdf_table.latest_tdf
      → FitsInt64 (shows a stop)
      → FitsInt64 (get_clock a.use_rt_clock begin)
      → FitsInt64 (shows a stop -ℤ get_clock a.use_rt_clock begin)
      → (a' : Agent) × (adjust stop begin a ≡ done a') × IsAdjusted stop begin a a'
  adjust_lem exact stop begin a v on p fs fn fd = elim (Bool-cases (suspends a.config)) [
    | inl suspending ↦
        let held = set a.semaphores 0 1 in
        let size = length-set a.semaphores 0 1 in
        let setval = semaphore_setval_done held 0 0 (omega (arith, v.semaphores_all, size)) in
        (
          _,
          adjust_suspending stop begin a v.iface_valid (omega (arith, v.semaphores_all)) suspending,
          after_round-IsAdjusted exact stop begin a v on p fs fn fd (set held 0 0)
              (omega (arith, length-set held 0 0, size))
              (λ s.
                waitforzero-setval held 0 0 (omega (arith, v.semaphores_all, size)) (omega arith)
                  (setval (omega arith)))
              (λ s. absurd (cc (s, suspending))),
        )
    | inr free ↦ (
      after_round stop begin a,
      adjust_free stop begin a v.iface_valid free,
      after_round-IsAdjusted exact stop begin a v on p fs fn fd a.semaphores refl
          (λ s. absurd (cc (s, free))) (λ s. refl),
    )
  ]

  -- A round on a valid agent always succeeds, whatever the TDF is, leaves a valid agent with the
  -- TDF table and the settings as they were, and brings the TDF in force to the shared memory.
  pub adjust_done :
      (stop begin : HostTime) (a : Agent)
      → IsValid a
      → (a' : Agent) × (adjust stop begin a ≡ done a')
        × IsValid a'
        × (a'.shared.tdf ≡ a'.tdf_table.latest_tdf)
        × (a'.tdf_table ≡ a.tdf_table)
        × (a'.config ≡ a.config)
  adjust_done stop begin a v = elim (Bool-cases (suspends a.config)) [
    | inl suspending ↦ (
      record (after_round stop begin a) { semaphores = set (set a.semaphores 0 1) 0 0 },
      adjust_suspending stop begin a v.iface_valid (omega (arith, v.semaphores_all)) suspending,
      after_round-IsValid stop begin a _ v refl refl
          (omega (arith, length-set (set a.semaphores 0 1) 0 0, length-set a.semaphores 0 1)),
      adjusted_tdf stop begin a,
      refl,
      refl,
    )
    | inr free ↦ (
      after_round stop begin a,
      adjust_free stop begin a v.iface_valid free,
      after_round-IsValid stop begin a (after_round stop begin a) v refl refl refl,
      adjusted_tdf stop begin a,
      refl,
      refl,
    )
  ]
