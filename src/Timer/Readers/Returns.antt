-- ===== src/Timer/Readers/Returns.antt =====
-- cpu_get_clock returns where the clocks stop being stopped and started, and what it returns is a time
-- that the clock showed, where they are not stopped and started too fast.
use virtual_time_synchroniza.Prelude.{
  ℕ, zero, suc, ◌+◌, ◌*◌, ◌≤◌, ◌≡◌, refl, sym, ◌∙◌, Bool, true, false, not, if◌then◌else◌, Option,
  some, arith,
}
use virtual_time_synchroniza.Prelude.Int.{ℤ}
use virtual_time_synchroniza.Floats.{Floats}
use virtual_time_synchroniza.Timer.{Shared, HostTime, get_clock, virtual_now, cpu_get_clock_copy}
use virtual_time_synchroniza.Timer.Readers.{cpu_get_clock}

-- A result that is a value.
abbrev pub Ends {ℓ} : {A : Type ℓ} → Option A → Type ℓ
Ends {A = A} o = (v : A) × (o ≡ some v)

pub if-Ends {ℓ} :
    {A : Type ℓ} (b : Bool) (x y : Option A)
    → (b ≡ true → Ends x)
    → (b ≡ false → Ends y)
    → Ends (if b then x else y)
if-Ends true x y p q = p refl
if-Ends false x y p q = q refl

-- Every value that a result holds has the property.
abbrev pub Holds {ℓ κ} : {A : Type ℓ} → (A → Type κ) → Option A → Type (ℓ ⊔ κ)
Holds {A = A} P o = (v : A) → o ≡ some v → P v

pub if-Holds {ℓ κ} :
    {A : Type ℓ} (P : A → Type κ) (b : Bool) (x y : Option A)
    → (b ≡ true → Holds P x)
    → (b ≡ false → Holds P y)
    → Holds P (if b then x else y)
if-Holds P true x y p q = p refl
if-Holds P false x y p q = q refl

module _ ⦃fl : Floats⦄ where
  -- The flag at an access.
  abbrev pub flag : (ℕ → Shared) → ℕ → Bool
  flag view k = (view k).timers.cpu_ticks_enabled

  -- From the access `n` on nobody stops or starts the clocks.
  abbrev pub IsSettled : (ℕ → Shared) → ℕ → Type 0
  IsSettled view n = (k : ℕ) → n ≤ k → flag view k ≡ flag view n

  settled_round :
      (fuel : ℕ) (rt : Bool) (view : ℕ → Shared) (host : ℕ → HostTime) (n k : ℕ)
      → IsSettled view n
      → n ≤ k
      → Ends (cpu_get_clock (suc fuel) rt view host k)
  unfolding cpu_get_clock
  settled_round fuel rt view host n k calm h =
      let at_0 = calm k h in
      let at_2 = calm (k + 2) (omega arith) in
      let at_3 = calm (k + 3) (omega arith) in
      let at_7 = calm (k + 7) (omega arith) in
      if-Ends (not (flag view k)) _ _
        (λ off.
          if-Ends (not (flag view (k + 2))) _ _ (λ off_2. (_, refl))
            (λ on_2. absurd (ground arith)))
        (λ on.
          if-Ends (flag view (k + 3)) _ _
            (λ on_3.
              if-Ends (flag view (k + 7)) _ _ (λ on_7. (_, refl)) (λ off_7. absurd (ground arith)))
            (λ off_3. absurd (ground arith)))

  -- A round that does not return goes on eight accesses later.
  next_round :
      (fuel : ℕ) (rt : Bool) (view : ℕ → Shared) (host : ℕ → HostTime) (k : ℕ)
      → Ends (cpu_get_clock fuel rt view host (k + 8))
      → Ends (cpu_get_clock (suc fuel) rt view host k)
  unfolding cpu_get_clock
  next_round fuel rt view host k rest =
      let running =
        if-Ends (flag view (k + 3)) _ _
          (λ _. if-Ends (flag view (k + 7)) _ _ (λ _. (_, refl)) (λ _. rest)) (λ _. rest) in
      if-Ends (not (flag view k)) _ _
        (λ _. if-Ends (not (flag view (k + 2))) _ _ (λ _. (_, refl)) (λ _. running)) (λ _. running)

  -- Where nobody stops or starts the clocks any more from some access on, the readers' loop returns,
  -- after at most one round more than it made until then: a round makes eight accesses.
  pub cpu_get_clock-returns :
      (fuel : ℕ) (rt : Bool) (view : ℕ → Shared) (host : ℕ → HostTime) (n k : ℕ)
      → IsSettled view n
      → n ≤ k + 8 * fuel
      → Ends (cpu_get_clock (suc fuel) rt view host k)
  cpu_get_clock-returns zero rt view host n k calm h =
      settled_round 0 rt view host n k calm (omega arith)
  cpu_get_clock-returns (suc fuel) rt view host n k calm h =
      next_round (suc fuel) rt view host k
        (cpu_get_clock-returns fuel rt view host n (k + 8) calm (omega arith))

  -- Where nobody writes to the shared memory meanwhile, the readers' loop ends in its first round
  -- with the value of `__cpu_get_clock`, the copy of it that the writer uses.
  pub cpu_get_clock_stable :
      (fuel : ℕ) (rt : Bool) (s : Shared) (h : HostTime) (k : ℕ)
      → cpu_get_clock (suc fuel) rt (λ _. s) (λ _. h) k ≡ some (cpu_get_clock_copy rt s h)
  unfolding cpu_get_clock cpu_get_clock_copy
  cpu_get_clock_stable fuel rt s h k = ground arith

  -- No process both stops and starts the clocks within four accesses of the reader.
  abbrev pub IsSlow : (ℕ → Shared) → Type 0
  IsSlow view =
      (i j m : ℕ)
      → i ≤ j
      → j ≤ m
      → m ≤ i + 4
      → flag view i ≡ flag view m
      → flag view j ≡ flag view i

  -- A process writes only where the clocks stand. The stores of a stop, of which all but the last are made
  -- while the clocks run, lie between two accesses (for a reader in the middle of them see Stop).
  abbrev pub WritesStopped : (ℕ → Shared) → Type 0
  WritesStopped view =
      (k m : ℕ) → m ≡ k + 1 → flag view k ≡ true → flag view m ≡ true → view m ≡ view k

  -- Between two accesses that find the clocks running, the memory is the same.
  same_memory :
      (view : ℕ → Shared) (k : ℕ)
      → IsSlow view
      → WritesStopped view
      → flag view (k + 3) ≡ true
      → flag view (k + 7) ≡ true
      → (view (k + 4) ≡ view (k + 3))
        × (view (k + 5) ≡ view (k + 3))
        × (view (k + 6) ≡ view (k + 3))
  same_memory view k slow still on_3 on_7 =
      let on : (j : ℕ) → k + 3 ≤ j → j ≤ k + 7 → flag view j ≡ true =
        (λ j a b. slow (k + 3) j (k + 7) a b (omega arith) (on_3 ∙ sym on_7) ∙ on_3) in
      let on_4 = on (k + 4) (omega arith) (omega arith) in
      let on_5 = on (k + 5) (omega arith) (omega arith) in
      let on_6 = on (k + 6) (omega arith) (omega arith) in
      let e_4 = still (k + 3) (k + 4) (omega arith) on_3 on_4 in
      let e_5 = still (k + 4) (k + 5) (omega arith) on_4 on_5 ∙ e_4 in
      (e_4, e_5, still (k + 5) (k + 6) (omega arith) on_5 on_6 ∙ e_5)

  running_value :
      (rt : Bool) (view : ℕ → Shared) (host : ℕ → HostTime) (k : ℕ)
      → IsSlow view
      → WritesStopped view
      → flag view (k + 3) ≡ true
      → flag view (k + 7) ≡ true
      → virtual_now
          (view (k + 4)).timers.cpu_clock_restart
          (view (k + 6)).timers.cpu_clock_offset
          (view (k + 5)).tdf
          (get_clock rt (host (k + 3)))
        ≡ cpu_get_clock_copy rt (view (k + 3)) (host (k + 3))
  unfolding cpu_get_clock_copy
  running_value rt view host k slow still on_3 on_7 =
      let (same_4, same_5, same_6) = same_memory view k slow still on_3 on_7 in
      rw (same_4, same_5, same_6, on_3) refl

  -- The clock showed the time at some access from `k` on.
  abbrev pub IsShown : Bool → (ℕ → Shared) → (ℕ → HostTime) → ℕ → ℤ → Type 0
  IsShown rt view host k v = (j : ℕ) × (k ≤ j) × (v ≡ cpu_get_clock_copy rt (view j) (host j))

  -- The half of a round that finds the clocks running, behind which the loop may go on.
  running-IsShown :
      (rt : Bool) (view : ℕ → Shared) (host : ℕ → HostTime) (k : ℕ) (again : Option ℤ)
      → IsSlow view
      → WritesStopped view
      → Holds (IsShown rt view host k) again
      → Holds (IsShown rt view host k) (
          if flag view (k + 3)
          then (if flag view (k + 7)
              then some (
                  virtual_now
                    (view (k + 4)).timers.cpu_clock_restart
                    (view (k + 6)).timers.cpu_clock_offset
                    (view (k + 5)).tdf
                    (get_clock rt (host (k + 3))))
              else again)
          else again)
  running-IsShown rt view host k again slow still rest =
      let P = IsShown rt view host k in
      if-Holds P (flag view (k + 3)) _ _
        (λ on_3.
          if-Holds P (flag view (k + 7)) _ _
            (λ on_7 w e.
              (k + 3, omega arith, cc (e, running_value rt view host k slow still on_3 on_7)))
            (λ _. rest))
        (λ _. rest)

  -- Where processes change the memory only while the clocks stand, with the stores of a stop between two
  -- accesses, and none both stops and starts them
  -- within four accesses, a value that the loop returns is one that the clock showed at one of the accesses.
  pub cpu_get_clock-Shown :
      (fuel : ℕ) (rt : Bool) (view : ℕ → Shared) (host : ℕ → HostTime) (k : ℕ) {v : ℤ}
      → IsSlow view
      → WritesStopped view
      → cpu_get_clock fuel rt view host k ≡ some v
      → IsShown rt view host k v
  unfolding cpu_get_clock cpu_get_clock_copy
  cpu_get_clock-Shown zero rt view host k {v} slow still e = absurd (ground (arith, e))
  cpu_get_clock-Shown (suc fuel) rt view host k {v} slow still e =
      let P = IsShown rt view host k in
      let rest : Holds P (cpu_get_clock fuel rt view host (k + 8)) = (λ w e'.
        let (j, h, shows) = cpu_get_clock-Shown fuel rt view host (k + 8) slow still e' in
        (j, omega arith, shows)) in
      if-Holds P (not (flag view k)) _ _
        (λ off_0.
          if-Holds P (not (flag view (k + 2))) _ _
            (λ off_2 w e'.
              let off_1 =
                slow k (k + 1) (k + 2) (omega arith) (omega arith) (omega arith) (ground arith) in
              (k + 1, omega arith, ground arith))
            (λ _. running-IsShown rt view host k _ slow still rest))
        (λ _. running-IsShown rt view host k _ slow still rest) v e
