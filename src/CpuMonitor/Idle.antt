-- ===== src/CpuMonitor/Idle.antt =====
-- The least idle ratio over all processors.
use virtual_time_synchroniza.Prelude.{
  ℕ, ◌≡◌, refl, ◌⊎◌, inl, inr, Bool, true, false, List, [], ◌∷◌, done, arith, All, length,
  Bool-cases, if◌then◌else◌,
}
use virtual_time_synchroniza.Floats.{Floats, IsOrdered}
use virtual_time_synchroniza.Configuration.{Configuration}
use virtual_time_synchroniza.CpuMonitor.{
  Cpu, CpuMonitor, totals, idles, xcpu_idle_ratio, min_loop, get_min_xcpu_idle_ratio,
  get_avg_min_xcpu_idle_ratio,
}

module _ ⦃fl : Floats⦄ where
  open fl use {Double, d}

  -- The ratios of all processors, against what is remembered of each.
  abbrev pub ratios : List (ℕ × ℕ) → List Double → List Double → List Double
  ratios (x ∷ xs) (t ∷ ts) (i ∷ is) = xcpu_idle_ratio x t i ∷ ratios xs ts is
  ratios _ _ _ = []

  abbrev pub Holds : Double → List Double → Type 0
  Holds m [] = ⊥
  Holds m (r ∷ rs) = (m ≡ r) ⊎ Holds m rs

  -- None of the ratios is less.
  abbrev pub IsLeast : Double → List Double → Type 0
  IsLeast m rs = All (λ r. d.lt r m ≡ false) rs

  -- The counters of as many processors are remembered as there are.
  pub record Remembers (n : ℕ) (m : CpuMonitor) : Type 0 where
    pub all_totals : length m.xcpu_total ≡ n
    pub all_idles : length m.xcpu_idle ≡ n

  length-totals :
      (xs : List (ℕ × ℕ)) → (length (totals xs) ≡ length xs) × (length (idles xs) ≡ length xs)
  length-totals [] = (refl, refl)
  length-totals (x ∷ xs) = (omega (arith, length-totals xs), omega (arith, length-totals xs))

  min_loop_done :
      (first : Bool) (m : Double) (xs : List (ℕ × ℕ)) (ts is : List Double)
      → length ts ≡ length xs
      → length is ≡ length xs
      → (r : Double) × (min_loop first m xs ts is ≡ done (r, totals xs, idles xs))
  unfolding min_loop
  min_loop_done first m [] [] [] a b = (m, refl)
  min_loop_done first m [] (t ∷ ts) is a b = absurd (omega arith)
  min_loop_done first m [] [] (i ∷ is) a b = absurd (omega arith)
  min_loop_done first m (x ∷ xs) [] is a b = absurd (omega arith)
  min_loop_done first m (x ∷ xs) (t ∷ ts) [] a b = absurd (omega arith)
  min_loop_done first m (x ∷ xs) (t ∷ ts) (i ∷ is) a b =
      let ratio = xcpu_idle_ratio x t i in
      let next = if first then ratio else if d.lt ratio m then ratio else m in
      let (r, run) = min_loop_done false next xs ts is (omega arith) (omega arith) in
      (r, rw run refl)

  -- The average idle ratio is found where the counters of all processors are remembered, and they
  -- stay remembered.
  pub get_avg_min_xcpu_idle_ratio_done :
      (cfg : Configuration) (cpu : Cpu) (m : CpuMonitor)
      → Remembers (length cpu.xcpu) m
      → (m' : CpuMonitor) × (avg : Double) × (get_avg_min_xcpu_idle_ratio cfg cpu m
          ≡ done (m', avg))
        × Remembers (length cpu.xcpu) m'
  unfolding get_avg_min_xcpu_idle_ratio get_min_xcpu_idle_ratio
  get_avg_min_xcpu_idle_ratio_done cfg cpu m rem =
      let (r, run) =
        min_loop_done true (d.lit 10 1) cpu.xcpu m.xcpu_total m.xcpu_idle rem.all_totals
          rem.all_idles in
      rw run (
        _,
        _,
        refl,
        record { all_totals = (length-totals cpu.xcpu).0; all_idles = (length-totals cpu.xcpu).1 },
      )

  module _ (laws : IsOrdered d) where
    -- What is not below a number is not below a lesser one.
    not_below : (r m c : Double) → (r ≡ m) ⊎ (d.lt r m ≡ true) → d.lt c m ≡ false → d.lt c r ≡ false
    not_below r m c (inl same) k = rw same k
    not_below r m c (inr less) k = elim (Bool-cases (d.lt c r)) [
      | inl below ↦ absurd (cc (laws.lt_trans c r m below less, k))
      | inr fine ↦ fine
    ]

    -- The loop behind the first processor: the minimum so far, or a later ratio that is less.
    min_loop_rest :
        (m : Double) (xs : List (ℕ × ℕ)) (ts is : List Double)
        → length ts ≡ length xs
        → length is ≡ length xs
        → (r : Double) × (min_loop false m xs ts is ≡ done (r, totals xs, idles xs))
          × ((r ≡ m) ⊎ (d.lt r m ≡ true) × Holds r (ratios xs ts is))
          × IsLeast r (ratios xs ts is)
    unfolding min_loop
    min_loop_rest m [] [] [] a b = (m, refl, inl refl, tt)
    min_loop_rest m [] (t ∷ ts) is a b = absurd (omega arith)
    min_loop_rest m [] [] (i ∷ is) a b = absurd (omega arith)
    min_loop_rest m (x ∷ xs) [] is a b = absurd (omega arith)
    min_loop_rest m (x ∷ xs) (t ∷ ts) [] a b = absurd (omega arith)
    min_loop_rest m (x ∷ xs) (t ∷ ts) (i ∷ is) a b =
        elim (Bool-cases (d.lt (xcpu_idle_ratio x t i) m)) [
          | inl less ↦
              let ratio = xcpu_idle_ratio x t i in
              let (r, run, from, least) =
                min_loop_rest ratio xs ts is (omega arith) (omega arith) in
              (
                r,
                rw (less, run) refl,
                elim from [
                  | inl same ↦ inr (rw same less, inl same)
                  | inr (below, later) ↦ inr (laws.lt_trans r ratio m below less, inr later)
                ],
                (not_below r ratio ratio (weaken from) (laws.lt_irrefl ratio), least),
              )
          | inr same ↦
              let ratio = xcpu_idle_ratio x t i in
              let (r, run, from, least) = min_loop_rest m xs ts is (omega arith) (omega arith) in
              (
                r,
                rw (same, run) refl,
                elim from [ inl e ↦ inl e | inr (below, later) ↦ inr (below, inr later) ],
                (not_below r m ratio (weaken from) same, least),
              )
        ]
      where
        weaken :
            {r q : Double} {Q : Type 0}
            → (r ≡ q) ⊎ (d.lt r q ≡ true) × Q
            → (r ≡ q) ⊎ (d.lt r q ≡ true)
        weaken (inl e) = inl e
        weaken (inr (below, later)) = inr below

    -- With at least one processor, and where the counters of each are remembered: the function
    -- returns the idle ratio of one of the processors, none of which is less, and remembers the
    -- counters that it read. A ratio that is no number counts as not less than any.
    pub get_min_xcpu_idle_ratio_lem :
        (cpu : Cpu) (x : ℕ × ℕ) (xs : List (ℕ × ℕ)) (m : CpuMonitor)
        → cpu.xcpu ≡ x ∷ xs
        → length m.xcpu_total ≡ length cpu.xcpu
        → length m.xcpu_idle ≡ length cpu.xcpu
        → (r : Double) × (get_min_xcpu_idle_ratio cpu m
            ≡ done (record m { xcpu_total = totals cpu.xcpu; xcpu_idle = idles cpu.xcpu }, r))
          × Holds r (ratios cpu.xcpu m.xcpu_total m.xcpu_idle)
          × IsLeast r (ratios cpu.xcpu m.xcpu_total m.xcpu_idle)
    unfolding get_min_xcpu_idle_ratio min_loop
    get_min_xcpu_idle_ratio_lem cpu x xs m e a b =
        let (r, run, holds, least) = first cpu.xcpu m.xcpu_total m.xcpu_idle e a b in
        (r, rw run refl, holds, least)
      where
        first :
            (ys : List (ℕ × ℕ)) (ts is : List Double)
            → ys ≡ x ∷ xs
            → length ts ≡ length ys
            → length is ≡ length ys
            → (r : Double) × (min_loop true (d.lit 10 1) ys ts is ≡ done (r, totals ys, idles ys))
              × Holds r (ratios ys ts is)
              × IsLeast r (ratios ys ts is)
        first [] ts is e a b = absurd (cc e)
        first (y ∷ ys) [] is e a b = absurd (omega arith)
        first (y ∷ ys) (t ∷ ts) [] e a b = absurd (omega arith)
        first (y ∷ ys) (t ∷ ts) (i ∷ is) e a b =
            let ratio = xcpu_idle_ratio y t i in
            let (r, run, from, least) = min_loop_rest ratio ys ts is (omega arith) (omega arith) in
            (
              r,
              rw run refl,
              elim from [ inl same ↦ inl same | inr (below, later) ↦ inr later ],
              elim from [
                | inl same ↦ (rw same (laws.lt_irrefl ratio), least)
                | inr (below, later) ↦
                    (not_below r ratio ratio (inr below) (laws.lt_irrefl ratio), least)
              ],
            )
