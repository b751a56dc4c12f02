-- ===== src/CpuLogger.antt =====
-- virtualagent/CpuLogger.{hpp,cpp}: the idle ratio for the log, a class of its own beside the monitor.
-- What glibtop reports is an argument.
pub mod Same
pub mod Tests
use virtual_time_synchroniza.Prelude.{
  ℕ, suc, ◌+◌, List, [], ◌∷◌, Outcome, done, crash, out_of_range, ◌>>=◌, ◌==◌, if◌then◌else◌,
}
use virtual_time_synchroniza.Prelude.Int.{pos}
use virtual_time_synchroniza.Floats.{Floats}
use virtual_time_synchroniza.CpuMonitor.{Cpu, totals, idles}

module _ ⦃fl : Floats⦄ where
  open fl use {Double, d}

  pub record CpuLogger : Type 0 where
    pub total : Double
    pub idle : Double
    pub xcpu_total : List Double
    pub xcpu_idle : List Double

  -- A counter as a `double`, where zero counts as one.
  abbrev pub as_double : ℕ → Double
  as_double n = if n == 0 then d.lit 10 1 else d.of_int (pos n)

  -- The constructor. Its loop over the processors is the one of the monitor's.
  unfoldable pub create : Cpu → CpuLogger
  create cpu = record {
    total = as_double cpu.total;
    idle = as_double cpu.idle;
    xcpu_total = totals cpu.xcpu;
    xcpu_idle = idles cpu.xcpu;
  }

  -- The ratio of the differences, or of the counters where it is no number.
  unfoldable pub idle_ratio : Double → Double → Double → Double → Double
  idle_ratio total idle diff_total diff_idle =
      let ratio = d.div diff_idle diff_total in if d.is_nan ratio then d.div idle total else ratio

  -- The loop from the i-th processor on.
  unfoldable pub loop :
      ℕ
      → Double
      → List (ℕ × ℕ)
      → List Double
      → List Double
      → Outcome (Double × List Double × List Double)
  loop i min_ratio [] ts is = done (min_ratio, ts, is)
  loop i min_ratio (x ∷ xs) (t ∷ ts) (e ∷ is) =
      let total = as_double x.0 in
      let idle = as_double x.1 in
      let ratio = idle_ratio total idle (d.sub total t) (d.sub idle e) in
      loop (suc i) (if i == 0 then ratio else if d.lt ratio min_ratio then ratio else min_ratio) xs
        ts is
      >>= λ r. done (r.0, total ∷ r.1, idle ∷ r.2)
  loop i min_ratio (x ∷ xs) ts is = crash out_of_range

  unfoldable pub get_min_xcpu_idle_ratio : Cpu → CpuLogger → Outcome (CpuLogger × Double)
  get_min_xcpu_idle_ratio cpu g = loop 0 (d.lit 10 1) cpu.xcpu g.xcpu_total g.xcpu_idle >>= λ r.
      done (record g { xcpu_total = r.1; xcpu_idle = r.2 }, r.0)
