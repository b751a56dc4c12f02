-- ===== src/CpuLogger/Same.antt =====
-- The logger and the monitor measure the same.
use virtual_time_synchroniza.Prelude.{
  ℕ, suc, ◌≡◌, refl, true, false, List, [], ◌∷◌, Outcome, done, crash, ◌>>=◌, ◌==◌, arith,
}
use virtual_time_synchroniza.Floats.{Floats}
use virtual_time_synchroniza.CpuMonitor.{Cpu, CpuMonitor, min_loop, xcpu_idle_ratio, counted}
use virtual_time_synchroniza.CpuMonitor
use virtual_time_synchroniza.CpuLogger.{CpuLogger, loop, idle_ratio, get_min_xcpu_idle_ratio}

module _ ⦃fl : Floats⦄ where
  open fl use {Double, d}

  loop-min_loop :
      (i : ℕ) (m : Double) (xs : List (ℕ × ℕ)) (ts is : List Double)
      → loop i m xs ts is ≡ min_loop (i == 0) m xs ts is
  unfolding loop min_loop idle_ratio xcpu_idle_ratio counted
  loop-min_loop i m [] ts is = refl
  loop-min_loop i m (x ∷ xs) [] is = refl
  loop-min_loop i m (x ∷ xs) (t ∷ ts) [] = refl
  loop-min_loop i m (x ∷ xs) (t ∷ ts) (e ∷ is) =
      let later : (suc i == 0) ≡ false = ground arith in
      rw (loop-min_loop (suc i) _ xs ts is, later) refl

  -- What a logger and a monitor keep in common.
  abbrev pub with_counters : CpuMonitor → CpuLogger → CpuLogger
  with_counters m g = record g { xcpu_total = m.xcpu_total; xcpu_idle = m.xcpu_idle }

  -- A logger and a monitor that remember the same counters find the same ratio and remember the same
  -- counters afterwards, and one crashes where the other does.
  pub get_min_xcpu_idle_ratio-with_counters :
      (cpu : Cpu) (m : CpuMonitor) (g : CpuLogger)
      → get_min_xcpu_idle_ratio cpu (with_counters m g)
        ≡ (CpuMonitor.get_min_xcpu_idle_ratio cpu m >>= λ r. done (with_counters r.0 g, r.1))
  unfolding get_min_xcpu_idle_ratio CpuMonitor.get_min_xcpu_idle_ratio
  get_min_xcpu_idle_ratio-with_counters cpu m g =
      rw (loop-min_loop 0 (d.lit 10 1) cpu.xcpu m.xcpu_total m.xcpu_idle)
        (same_rest (min_loop true (d.lit 10 1) cpu.xcpu m.xcpu_total m.xcpu_idle))
    where
      same_rest :
          (r : Outcome (Double × List Double × List Double))
          → ◌>>=◌ {B = CpuLogger × Double} r
              (λ s. done (record g { xcpu_total = s.1; xcpu_idle = s.2 }, s.0))
            ≡ ◌>>=◌ {B = CpuLogger × Double}
                (◌>>=◌ {B = CpuMonitor × Double} r
                  (λ s. done (record m { xcpu_total = s.1; xcpu_idle = s.2 }, s.0)))
                (λ s. done (with_counters s.0 g, s.1))
      same_rest (done s) = refl
      same_rest (crash e) = refl
