-- ===== src/CpuMonitor/Tests.antt =====
-- The theorems on the monitor at concrete counters.
use virtual_time_synchroniza.Prelude.{
  ◌≡◌, refl, true, false, Bytes, [], ◌∷◌, Option, none, some, done, codes,
}
use virtual_time_synchroniza.Prelude.Int.{ℤ}
use virtual_time_synchroniza.Floats.Fixed.{fixed, fixed-IsOrdered}
use virtual_time_synchroniza.Configuration.{defaults}
use virtual_time_synchroniza.Timer.{SimulatorsState}
use virtual_time_synchroniza.Message.Tcp.{is_number}
use virtual_time_synchroniza.CpuMonitor.{
  Cpu, CpuMonitor, create, totals, idles, monitor, message, get_min_xcpu_idle_ratio,
}
use virtual_time_synchroniza.CpuMonitor.Idle.{
  ratios, Holds, IsLeast, Remembers, get_min_xcpu_idle_ratio_lem,
}
use virtual_time_synchroniza.CpuMonitor.Required.{InBounds, monitor-InBounds}

abbrev pub cpu_then : Cpu
cpu_then = record { total = 1000; idle = 900; xcpu = (500, 450) ∷ (500, 450) ∷ [] }

abbrev pub cpu_now : Cpu
cpu_now = record { total = 1200; idle = 1000; xcpu = (600, 460) ∷ (600, 540) ∷ [] }

abbrev fresh : CpuMonitor
fresh = create defaults cpu_then

abbrev no_simulators : SimulatorsState
no_simulators = record { time = 0; overhead_delay = 0 }

fresh-Remembers : Remembers 2 fresh
unfolding create
fresh-Remembers = record { all_totals = refl; all_idles = refl }

get_min_xcpu_idle_ratio_lem_example :
    (r : ℤ) × (get_min_xcpu_idle_ratio cpu_now fresh
      ≡ done (record fresh { xcpu_total = totals cpu_now.xcpu; xcpu_idle = idles cpu_now.xcpu }, r))
    × Holds r (ratios cpu_now.xcpu fresh.xcpu_total fresh.xcpu_idle)
    × IsLeast r (ratios cpu_now.xcpu fresh.xcpu_total fresh.xcpu_idle)
unfolding create
get_min_xcpu_idle_ratio_lem_example =
    get_min_xcpu_idle_ratio_lem fixed-IsOrdered cpu_now (600, 460) ((600, 540) ∷ []) fresh refl refl
      refl

monitor-InBounds_example :
    (m' : CpuMonitor) × (sent : Option Bytes) × (monitor defaults
        (codes "zerg")
        cpu_now
        no_simulators
        7
        fresh
      ≡ done (m', sent))
    × Remembers 2 m'
    × (is_number defaults.is_load_monitored 0 ≡ true → (m' ≡ fresh) × (sent ≡ none))
    × (is_number defaults.is_load_monitored 0 ≡ false
        → (tdf : ℤ) × (sent ≡ some (message (codes "zerg") tdf)) × InBounds defaults tdf)
monitor-InBounds_example =
    monitor-InBounds fixed-IsOrdered defaults refl (codes "zerg") cpu_now no_simulators 7 fresh
      fresh-Remembers
