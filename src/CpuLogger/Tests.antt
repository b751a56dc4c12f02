-- ===== src/CpuLogger/Tests.antt =====
-- The theorem on the logger at concrete counters.
use virtual_time_synchroniza.Prelude.{◌≡◌, done, ◌>>=◌}
use virtual_time_synchroniza.Floats.Fixed.{fixed}
use virtual_time_synchroniza.Configuration.{defaults}
use virtual_time_synchroniza.CpuMonitor.{CpuMonitor}
use virtual_time_synchroniza.CpuMonitor
use virtual_time_synchroniza.CpuMonitor.Tests.{cpu_then, cpu_now}
use virtual_time_synchroniza.CpuLogger.{create, get_min_xcpu_idle_ratio}
use virtual_time_synchroniza.CpuLogger.Same.{with_counters, get_min_xcpu_idle_ratio-with_counters}

abbrev watching : CpuMonitor
watching = CpuMonitor.create defaults cpu_then

same_ratio : get_min_xcpu_idle_ratio cpu_now (with_counters watching (create cpu_then)) ≡ (
    CpuMonitor.get_min_xcpu_idle_ratio cpu_now watching >>= λ r.
    done (with_counters r.0 (create cpu_then), r.1))
same_ratio = get_min_xcpu_idle_ratio-with_counters cpu_now watching (create cpu_then)
