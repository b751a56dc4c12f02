-- ===== src/Timer/Readers/Ticks.antt =====
-- cpu_get_ticks returns where the clocks stop being stopped and started, and where nobody interferes it
-- is what its copy in the writer is.
use virtual_time_synchroniza.Prelude.{
  ℕ, zero, suc, ◌+◌, ◌*◌, ◌≤◌, ◌≡◌, refl, Bool, true, not, Option, some, arith,
}
use virtual_time_synchroniza.Prelude.Int.{ℤ}
use virtual_time_synchroniza.Floats.{Floats}
use virtual_time_synchroniza.Timer.{Shared, HostTime, cpu_get_ticks_copy, read_ticks, ticks_offset}
use virtual_time_synchroniza.Timer.Readers.{
  Others, cpu_get_ticks, second_half, running_round, correct_offset, store_prev, store_offset,
}
use virtual_time_synchroniza.Timer.Readers.Returns.{Ends, if-Ends}

module _ ⦃fl : Floats⦄ where
  open fl use {LongDouble, l}

  abbrev pub enabled : Shared → Bool
  enabled s = s.timers.cpu_ticks_enabled

  -- From the access `n` on the other processes neither stop nor start the clocks.
  abbrev pub LeavesFlag : Others → ℕ → Type 0
  LeavesFlag others n = (k : ℕ) (s : Shared) → n ≤ k → enabled (others k s) ≡ enabled s

  correct_offset-enabled :
      (others : Others) (n k : ℕ) (ticks : ℤ) (s : Shared)
      → LeavesFlag others n
      → n ≤ k
      → enabled (correct_offset others k ticks s) ≡ enabled s
  unfolding correct_offset store_offset
  correct_offset-enabled others n k ticks s keeps h =
      let at_0 = keeps k s h in
      let s0 = others k s in
      let at_1 = keeps (k + 1) s0 (omega arith) in
      let s1 = others (k + 1) s0 in
      let at_2 = keeps (k + 2) s1 (omega arith) in
      let s2 = others (k + 2) s1 in
      let at_3 = keeps (k + 3) s2 (omega arith) in
      let at_4 = keeps (k + 4) (others (k + 3) s2) (omega arith) in ground arith

  running_round-enabled :
      (others : Others) (n k : ℕ) (ticks : ℤ) (s : Shared)
      → LeavesFlag others n
      → n ≤ k
      → enabled (running_round others k ticks s).0 ≡ enabled s
  unfolding running_round store_prev
  running_round-enabled others n k ticks s keeps h =
      let corrected = correct_offset-enabled others n k ticks s keeps h in
      let c = correct_offset others k ticks s in
      let at_5 = keeps (k + 5) c (omega arith) in
      let s5 = store_prev ticks (others (k + 5) c) in
      let at_6 = keeps (k + 6) s5 (omega arith) in
      let s6 = others (k + 6) s5 in
      let at_7 = keeps (k + 7) s6 (omega arith) in
      let at_8 = keeps (k + 8) (others (k + 7) s6) (omega arith) in
      cc (corrected, at_5, at_6, at_7, at_8)

  second_half-Ends :
      (others : Others) (k : ℕ) (ticks : ℤ) (s : Shared) (again : Shared → Option (Shared × ℤ))
      → ((m : Shared) → Ends (again m))
      → Ends (second_half others k ticks s again)
  unfolding second_half
  second_half-Ends others k ticks s again ends =
      let s3 = others k s in
      let s13 = others (k + 10) (running_round others (k + 1) ticks s3).0 in
      if-Ends (enabled s3) _ _ (λ _. if-Ends (enabled s13) _ _ (λ _. (_, refl)) (λ _. ends s13))
        (λ _. ends s3)

  next_round :
      (fuel : ℕ) (others : Others) (host : ℕ → HostTime) (k : ℕ) (s : Shared)
      → ((m : Shared) → Ends (cpu_get_ticks fuel others host (k + 14) m))
      → Ends (cpu_get_ticks (suc fuel) others host k s)
  unfolding cpu_get_ticks
  next_round fuel others host k s ends =
      let s0 = others k s in
      let s2 = others (k + 2) (others (k + 1) s0) in
      if-Ends (not (enabled s0)) _ _
        (λ _.
          if-Ends (not (enabled s2)) _ _ (λ _. (_, refl))
            (λ _. second_half-Ends others (k + 3) _ s2 _ ends))
        (λ _. second_half-Ends others (k + 3) _ s0 _ ends)

  second_half-settled :
      (others : Others) (n k : ℕ) (ticks : ℤ) (s : Shared) (again : Shared → Option (Shared × ℤ))
      → LeavesFlag others n
      → n ≤ k
      → enabled s ≡ true
      → Ends (second_half others k ticks s again)
  unfolding second_half
  second_half-settled others n k ticks s again keeps h on =
      let at_3 = keeps k s h in
      let at_12 = running_round-enabled others n (k + 1) ticks (others k s) keeps (omega arith) in
      let s12 = (running_round others (k + 1) ticks (others k s)).0 in
      let at_13 = keeps (k + 10) s12 (omega arith) in
      if-Ends (enabled (others k s)) _ _
        (λ _.
          if-Ends (enabled (others (k + 10) s12)) _ _ (λ _. (_, refl))
            (λ off. absurd (ground arith)))
        (λ off. absurd (ground arith))

  settled_round :
      (fuel : ℕ) (others : Others) (host : ℕ → HostTime) (n k : ℕ) (s : Shared)
      → LeavesFlag others n
      → n ≤ k
      → Ends (cpu_get_ticks (suc fuel) others host k s)
  unfolding cpu_get_ticks
  settled_round fuel others host n k s keeps h =
      let s0 = others k s in
      let at_1 = keeps (k + 1) s0 (omega arith) in
      let s2 = others (k + 2) (others (k + 1) s0) in
      let at_2 = keeps (k + 2) (others (k + 1) s0) (omega arith) in
      if-Ends (not (enabled s0)) _ _
        (λ off. if-Ends (not (enabled s2)) _ _ (λ _. (_, refl)) (λ on. absurd (ground arith)))
        (λ on. second_half-settled others n (k + 3) _ s0 _ keeps (omega arith) (ground arith))

  -- Where from some access on the other processes neither stop nor start the clocks, the loop of
  -- cpu_get_ticks returns, after at most one round more than it made until then, whatever else they
  -- write: a round makes fourteen accesses.
  pub cpu_get_ticks-returns :
      (fuel : ℕ) (others : Others) (host : ℕ → HostTime) (n k : ℕ) (s : Shared)
      → LeavesFlag others n
      → n ≤ k + 14 * fuel
      → Ends (cpu_get_ticks (suc fuel) others host k s)
  cpu_get_ticks-returns zero others host n k s keeps h =
      settled_round 0 others host n k s keeps (omega arith)
  cpu_get_ticks-returns (suc fuel) others host n k s keeps h =
      next_round (suc fuel) others host k s
        (λ m. cpu_get_ticks-returns fuel others host n (k + 14) m keeps (omega arith))

  -- Where no other process writes to the memory, cpu_get_ticks returns in its first round, and both its
  -- value and what it writes are those of `__cpu_get_ticks`, the copy of it that the writer uses.
  pub cpu_get_ticks-alone :
      (fuel : ℕ) (host : ℕ → HostTime) (k : ℕ) (s : Shared)
      → cpu_get_ticks (suc fuel) (λ _ m. m) host k s
        ≡ some (
          record s { timers = (cpu_get_ticks_copy s (host (k + 3))).0 },
          (cpu_get_ticks_copy s (host (k + 3))).1,
        )
  unfolding cpu_get_ticks second_half running_round correct_offset store_prev store_offset
      cpu_get_ticks_copy read_ticks ticks_offset
  cpu_get_ticks-alone fuel host k s = ground arith
