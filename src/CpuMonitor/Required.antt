-- ===== src/CpuMonitor/Required.antt =====
-- The TDF that a host sends stays within the bounds that are set.
use virtual_time_synchroniza.Prelude.{
  ℕ, ◌≡◌, refl, inl, inr, true, false, Bytes, Option, none, some, done, arith, Bool-cases, length,
  ltb, ◌||◌,
}
use virtual_time_synchroniza.Floats.{Floats, IsOrdered}
use virtual_time_synchroniza.Configuration.{Configuration}
use virtual_time_synchroniza.Timer.{SimulatorsState}
use virtual_time_synchroniza.Message.Tcp.{is_number}
use virtual_time_synchroniza.CpuMonitor.Idle.{Remembers, get_avg_min_xcpu_idle_ratio_done}
use virtual_time_synchroniza.CpuMonitor.{
  Cpu, CpuMonitor, bounded, time_diff, next_tdf_load, next_tdf_sim, required_tdf, update_load,
  update_sim, monitor, message,
}

module _ ⦃fl : Floats⦄ where
  open fl use {LongDouble, l}

  -- Neither below the least TDF nor above the greatest.
  abbrev pub InBounds : Configuration → LongDouble → Type 0
  InBounds cfg t = (l.lt t cfg.tdf_min ≡ false) × (l.lt cfg.tdf_max t ≡ false)

  module _ (laws : IsOrdered l) (cfg : Configuration)
      (sound : l.lt cfg.tdf_max cfg.tdf_min ≡ false) where
    bounded-InBounds : (t : LongDouble) → InBounds cfg (bounded cfg t)
    unfolding bounded
    bounded-InBounds t = ground (arith, laws.lt_irrefl cfg.tdf_min, laws.lt_irrefl cfg.tdf_max)

    next_tdf_sim-InBounds :
        (sim : SimulatorsState) (now : ℕ) (m : CpuMonitor)
        → InBounds cfg (next_tdf_sim cfg sim now m).tdf_sim
          × ((next_tdf_sim cfg sim now m).tdf_load ≡ m.tdf_load)
    unfolding next_tdf_sim
    next_tdf_sim-InBounds sim now m = elim (Bool-cases (ltb (time_diff sim.time now) 10_000_000)) [
      | inl fresh ↦ rw fresh (bounded-InBounds _, refl)
      | inr stale ↦ rw stale ((laws.lt_irrefl cfg.tdf_min, sound), refl)
    ]

    -- The TDF that a round asks for, from any state in which the last one left the monitor.
    required_tdf-InBounds :
        (sim : SimulatorsState) (now : ℕ) (m : CpuMonitor)
        → ((is_number cfg.monitor_mode 0 || is_number cfg.monitor_mode 2) ≡ true
            → InBounds cfg m.tdf_load)
        → InBounds cfg (required_tdf cfg (update_sim cfg sim now m))
    unfolding required_tdf update_sim
    required_tdf-InBounds sim now m load =
        ground (arith, next_tdf_sim-InBounds sim now m, laws.lt_irrefl cfg.tdf_min)

    update_load-InBounds :
        (cpu : Cpu) (m : CpuMonitor)
        → Remembers (length cpu.xcpu) m
        → (m' : CpuMonitor) × (update_load cfg cpu m ≡ done m')
          × Remembers (length cpu.xcpu) m'
          × ((is_number cfg.monitor_mode 0 || is_number cfg.monitor_mode 2) ≡ true
              → InBounds cfg m'.tdf_load)
    unfolding update_load next_tdf_load
    update_load-InBounds cpu m rem =
        elim (Bool-cases (is_number cfg.monitor_mode 0 || is_number cfg.monitor_mode 2)) [
          | inl loads ↦
              let (m1, avg, run, rem1) = get_avg_min_xcpu_idle_ratio_done cfg cpu m rem in
              (
                record m1 { tdf_load = next_tdf_load cfg avg m1.tdf_load },
                rw (loads, run) refl,
                record { all_totals = rem1.all_totals; all_idles = rem1.all_idles },
                λ e. bounded-InBounds _,
              )
          | inr other ↦ (m, rw other refl, rem, λ e. absurd (cc (e, other)))
        ]

    update_sim-Remembers :
        (sim : SimulatorsState) (now n : ℕ) (m : CpuMonitor)
        → Remembers n m
        → Remembers n (update_sim cfg sim now m)
    unfolding update_sim next_tdf_sim
    update_sim-Remembers sim now n m rem = record {
      all_totals = ground (arith, rem.all_totals);
      all_idles = ground (arith, rem.all_idles);
    }

    -- A round on a monitor that remembers the counters of all processors succeeds and leaves it so.
    -- Without load monitoring it changes nothing and sends nothing. With it, whatever it reads and
    -- however the last round ended, it sends protocol 10 with the name of the host and a TDF that is
    -- neither below the least nor above the greatest TDF of the settings in force (a value that is no
    -- number counts as neither). The greatest must not be below the least.
    pub monitor-InBounds :
        (hostname : Bytes) (cpu : Cpu) (sim : SimulatorsState) (now : ℕ) (m : CpuMonitor)
        → Remembers (length cpu.xcpu) m
        → (m' : CpuMonitor) × (sent : Option Bytes) × (monitor cfg hostname cpu sim now m
            ≡ done (m', sent))
          × Remembers (length cpu.xcpu) m'
          × (is_number cfg.is_load_monitored 0 ≡ true → (m' ≡ m) × (sent ≡ none))
          × (is_number cfg.is_load_monitored 0 ≡ false
              → (tdf : LongDouble) × (sent ≡ some (message hostname tdf)) × InBounds cfg tdf)
    unfolding monitor
    monitor-InBounds hostname cpu sim now m rem =
        elim (Bool-cases (is_number cfg.is_load_monitored 0)) [
          | inl off ↦ (m, none, rw off refl, rem, λ e. (refl, refl), λ e. absurd (cc (e, off)))
          | inr on ↦
              let (m1, run, rem1, load) = update_load-InBounds cpu m rem in
              let m2 = update_sim cfg sim now m1 in
              (
                m2,
                some (message hostname (required_tdf cfg m2)),
                rw (on, run) refl,
                update_sim-Remembers sim now (length cpu.xcpu) m1 rem1,
                λ e. absurd (cc (e, on)),
                λ e. (required_tdf cfg m2, refl, required_tdf-InBounds sim now m1 load),
              )
        ]
