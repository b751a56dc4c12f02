-- ===== src/CpuMonitor.antt =====
-- virtualagent/CpuMonitor.{hpp,cpp}: the thread that watches the load of the machine and the delay of
-- the simulators, and sends the TDF that this host requires. What glibtop reports, the simulators'
-- state and the time of day are arguments; the logger is left out.
pub mod Idle
pub mod Required
pub mod Tests
use virtual_time_synchroniza.Prelude.{
  ℕ, ◌*◌, ◌-◌, ◌%◌, ◌^◌, Bool, true, false, Bytes, List, [], ◌∷◌, ◌++◌, Option, none, some, Outcome,
  done, crash, out_of_range, ◌>>=◌, ◌==◌, ltb, ◌||◌, codes, if◌then◌else◌,
}
use virtual_time_synchroniza.Prelude.Int.{ℤ, pos, negsuc}
use virtual_time_synchroniza.Floats.{Floats}
use virtual_time_synchroniza.Configuration.{Configuration}
use virtual_time_synchroniza.Timer.{SimulatorsState}
use virtual_time_synchroniza.Message.Tcp.{is_number}

-- The counters of `glibtop_cpu`, of the machine and of each of its processors (total and idle).
pub record Cpu : Type 0 where
  pub total : ℕ
  pub idle : ℕ
  pub xcpu : List (ℕ × ℕ)

module _ ⦃fl : Floats⦄ where
  open fl use {Double, LongDouble, d, l, widen, pow, print}

  -- The two static averages and the members, and the two variables of `start` that last from round
  -- to round. `xcpu_total` and `xcpu_idle` hold an element for each processor.
  pub record CpuMonitor : Type 0 where
    pub avg_min_xcpu_idle_ratio : Double
    pub cur_min_xcpu_idle_ratio : Double
    pub avg_sim_state_overhead_delay : ℤ
    pub total : Double
    pub idle : Double
    pub xcpu_total : List Double
    pub xcpu_idle : List Double
    pub tdf_load : LongDouble
    pub tdf_sim : LongDouble

  -- A counter as a `double`, where zero counts as one.
  unfoldable pub counted : ℕ → Double
  counted n = if n == 0 then d.lit 10 1 else d.of_int (pos n)

  abbrev pub totals : List (ℕ × ℕ) → List Double
  totals [] = []
  totals (x ∷ xs) = counted x.0 ∷ totals xs

  abbrev pub idles : List (ℕ × ℕ) → List Double
  idles [] = []
  idles (x ∷ xs) = counted x.1 ∷ idles xs

  -- The constructor, and the first lines of `start`.
  unfoldable pub create : Configuration → Cpu → CpuMonitor
  create cfg cpu = record {
    avg_min_xcpu_idle_ratio = d.lit 10 1;
    cur_min_xcpu_idle_ratio = d.lit 10 1;
    avg_sim_state_overhead_delay = pos cfg.target_delay;
    total = counted cpu.total;
    idle = counted cpu.idle;
    xcpu_total = totals cpu.xcpu;
    xcpu_idle = idles cpu.xcpu;
    tdf_load = cfg.tdf_min;
    tdf_sim = cfg.tdf_min;
  }

  unfoldable pub get_cpu_idle_ratio : Cpu → CpuMonitor → CpuMonitor × Double
  get_cpu_idle_ratio cpu m =
      let total = counted cpu.total in
      let idle = counted cpu.idle in
      let ret = d.div (d.sub idle m.idle) (d.sub total m.total) in
      (record m { total = total; idle = idle }, if d.is_nan ret then d.div idle total else ret)

  -- The idle ratio of one processor since the last look, or since the start where it did not tick.
  unfoldable pub xcpu_idle_ratio : ℕ × ℕ → Double → Double → Double
  xcpu_idle_ratio x total_before idle_before =
      let total = counted x.0 in
      let idle = counted x.1 in
      let ratio = d.div (d.sub idle idle_before) (d.sub total total_before) in
      if d.is_nan ratio then d.div idle total else ratio

  -- The loop of `getMinXCpuIdleRatio` from a processor on: the first argument tells whether it is the
  -- first one. The result holds the minimum and what is remembered.
  unfoldable pub min_loop :
      Bool
      → Double
      → List (ℕ × ℕ)
      → List Double
      → List Double
      → Outcome (Double × List Double × List Double)
  min_loop first min_ratio [] ts is = done (min_ratio, ts, is)
  min_loop first min_ratio (x ∷ xs) (t ∷ ts) (i ∷ is) =
      let ratio = xcpu_idle_ratio x t i in
      min_loop false (if first then ratio else if d.lt ratio min_ratio then ratio else min_ratio) xs
        ts is
      >>= λ r. done (r.0, counted x.0 ∷ r.1, counted x.1 ∷ r.2)
  min_loop first min_ratio (x ∷ xs) ts is = crash out_of_range

  unfoldable pub get_min_xcpu_idle_ratio : Cpu → CpuMonitor → Outcome (CpuMonitor × Double)
  get_min_xcpu_idle_ratio cpu m =
      min_loop true (d.lit 10 1) cpu.xcpu m.xcpu_total m.xcpu_idle >>= λ r.
      done (record m { xcpu_total = r.1; xcpu_idle = r.2 }, r.0)

  unfoldable pub get_avg_min_xcpu_idle_ratio :
      Configuration → Cpu → CpuMonitor → Outcome (CpuMonitor × Double)
  get_avg_min_xcpu_idle_ratio cfg cpu m = get_min_xcpu_idle_ratio cpu m >>= λ r.
      let avg =
        d.add (d.mul (d.sub (d.lit 10 1) cfg.alpha) r.0.avg_min_xcpu_idle_ratio)
          (d.mul cfg.alpha r.1) in
      done (record (r.0) { cur_min_xcpu_idle_ratio = r.1; avg_min_xcpu_idle_ratio = avg }, avg)

  unfoldable pub sign : Double → Double
  sign t =
      if d.eq t (d.of_int (pos 0))
      then d.of_int (pos 0)
      else if d.lt t (d.of_int (pos 0))
      then d.of_int (negsuc 0)
      else d.of_int (pos 1)

  -- "Set a boundary"
  unfoldable pub bounded : Configuration → LongDouble → LongDouble
  bounded cfg tdf =
      if l.lt tdf cfg.tdf_min
      then cfg.tdf_min
      else if l.lt cfg.tdf_max tdf
      then cfg.tdf_max
      else tdf

  -- The TDF for the load, from the average idle ratio.
  unfoldable pub next_tdf_load : Configuration → Double → LongDouble → LongDouble
  unfolding bounded sign
  next_tdf_load cfg avg_ratio tdf_load =
      let targ_cpu_idle_ratio = d.sub (d.lit 10 1) cfg.target_load in
      let linear_increment =
        d.div (d.sub avg_ratio targ_cpu_idle_ratio) (d.sub (d.lit 10 1) targ_cpu_idle_ratio) in
      let nonlinear_increment = pow (d.abs linear_increment) cfg.nonlinear_factor in
      let two_pow = pow (d.of_int (pos 2)) cfg.nonlinear_factor in
      bounded cfg (
        l.sub tdf_load (
          widen (
            d.mul (d.mul (d.mul cfg.change_slope two_pow) (sign linear_increment))
              nonlinear_increment)))

  unfoldable pub time_diff : ℕ → ℕ → ℕ
  time_diff sim_state_time current_time =
      if ltb current_time sim_state_time
      then sim_state_time - current_time
      else current_time - sim_state_time

  -- The TDF for the simulators' delay. A state that is ten seconds old does not count.
  unfoldable pub next_tdf_sim : Configuration → SimulatorsState → ℕ → CpuMonitor → CpuMonitor
  unfolding bounded time_diff
  next_tdf_sim cfg sim current_time m =
      let avg = d.to_int (
        d.add (d.mul (d.sub (d.lit 10 1) cfg.alpha) (d.of_int m.avg_sim_state_overhead_delay))
          (d.mul cfg.alpha (d.of_int (pos sim.overhead_delay)))) in
      let target = l.of_int (pos cfg.target_delay) in
      if ltb (time_diff sim.time current_time) 10_000_000
      then record m {
        avg_sim_state_overhead_delay = avg;
        tdf_sim =
            bounded cfg (
              l.add m.tdf_sim
                (l.div (l.mul cfg.tdf_sim_gain (l.sub (l.of_int avg) target)) target));
      }
      else record m { tdf_sim = cfg.tdf_min }

  -- The `switch` on the mode.
  unfoldable pub required_tdf : Configuration → CpuMonitor → LongDouble
  required_tdf cfg m =
      if is_number cfg.monitor_mode 0
      then m.tdf_load
      else if is_number cfg.monitor_mode 1
      then m.tdf_sim
      else if is_number cfg.monitor_mode 2
      then (if l.lt m.tdf_load m.tdf_sim then m.tdf_sim else m.tdf_load)
      else cfg.tdf_min

  unfoldable pub message : Bytes → LongDouble → Bytes
  message hostname tdf = codes "0010|" ++ (hostname ++ (codes "|" ++ print tdf))

  -- The two parts of a round, each with the modes in which it runs.
  unfoldable pub update_load : Configuration → Cpu → CpuMonitor → Outcome CpuMonitor
  update_load cfg cpu m =
      if is_number cfg.monitor_mode 0 || is_number cfg.monitor_mode 2
      then (get_avg_min_xcpu_idle_ratio cfg cpu m >>= λ r.
          done (record (r.0) { tdf_load = next_tdf_load cfg r.1 r.0.tdf_load }))
      else done m

  unfoldable pub update_sim : Configuration → SimulatorsState → ℕ → CpuMonitor → CpuMonitor
  update_sim cfg sim current_time m =
      if is_number cfg.monitor_mode 1 || is_number cfg.monitor_mode 2
      then next_tdf_sim cfg sim current_time m
      else m

  -- One round of the loop of `start`: the new state, and the message that is sent.
  unfoldable pub monitor :
      Configuration
      → Bytes
      → Cpu
      → SimulatorsState
      → ℕ
      → CpuMonitor
      → Outcome (CpuMonitor × Option Bytes)
  unfolding update_sim
  monitor cfg hostname cpu sim current_time m =
      if is_number cfg.is_load_monitored 0
      then done (m, none)
      else (update_load cfg cpu m >>= λ m1.
          let m2 = update_sim cfg sim current_time m1 in
          done (m2, some (message hostname (required_tdf cfg m2))))

-- How long a round sleeps: an `unsigned int` of microseconds.
unfoldable pub sleep_us : ℕ → ℕ → ℕ
sleep_us packet_handle_period tdf_table_size = packet_handle_period * tdf_table_size % 2 ^ 32
