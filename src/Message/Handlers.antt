-- ===== src/Message/Handlers.antt =====
-- Every handler of a TCP message but that of protocol 2 leaves a valid agent valid.
use virtual_time_synchroniza.Prelude.{ℕ, ◌≡◌, refl, Bytes, List, [], ◌∷◌, arith, set, length, ◌≤◌}
use virtual_time_synchroniza.Prelude.Int.{ℤ, pos}
use virtual_time_synchroniza.Floats.{Floats}
use virtual_time_synchroniza.CLib.{atoll}
use virtual_time_synchroniza.TdfTable
use virtual_time_synchroniza.Semaphore.{sem_go, sem_stop}
use virtual_time_synchroniza.Semaphore.Laws.{semaphore_setval_done}
use virtual_time_synchroniza.Timer.{HostTime}
use virtual_time_synchroniza.Agent.{Agent, IsValid, set_hosts, stop_time, start_time}
use virtual_time_synchroniza.Message.Tcp
use virtual_time_synchroniza.Message.Tcp.{is_number, dispatch_tcp, dispatch_late}
use virtual_time_synchroniza.Message.Validity.{
  Succeeds, unchanged_parts, if_either, with_table-IsValid, set_interface-IsValid,
}

pub length-set : (s : List ℕ) (i v : ℕ) → length (set s i v) ≡ length s
length-set [] i v = refl
length-set (x ∷ s) ℕ.zero v = refl
length-set (x ∷ s) (ℕ.suc i) v = omega (arith, length-set s i v)

module _ ⦃fl : Floats⦄ where
  set_hosts-Succeeds : (v : ℕ) (a : Agent) → v ≤ 1 → IsValid a → Succeeds (set_hosts v a)
  unfolding set_hosts
  set_hosts-Succeeds v a small ok =
      rw (semaphore_setval_done a.semaphores 0 v (omega (arith, ok.semaphores_all)) (omega arith)) (
        record a { semaphores = set a.semaphores 0 v },
        refl,
        record {
          tdf_valid = ok.tdf_valid;
          iface_valid = ok.iface_valid;
          semaphores_all = omega (arith, length-set a.semaphores 0 v, ok.semaphores_all);
        },
      )

  module _ (a : Agent) (v : IsValid a) where
    pub replace_interface-Succeeds : (ts : List Bytes) → Succeeds (Tcp.replace_interface ts a)
    unfolding Tcp.replace_interface
    replace_interface-Succeeds (t ∷ name ∷ rate ∷ delay ∷ []) =
        (_, refl, set_interface-IsValid a name (atoll rate) (atoll delay) _ v)
    replace_interface-Succeeds _ = (a, refl, v)

    pub enforce-Succeeds : (ts : List Bytes) → Succeeds (Tcp.enforce ts a)
    unfolding Tcp.enforce TdfTable.enforce_tdf
    enforce-Succeeds (t ∷ tdf ∷ []) = (
      _,
      refl,
      with_table-IsValid a _ v
          (record { sorted = v.tdf_valid.sorted; no_null = v.tdf_valid.no_null }),
    )
    enforce-Succeeds _ = (a, refl, v)

    pub switch-Succeeds :
        (ts : List Bytes)
        → Succeeds (Tcp.enable ts a) × Succeeds (Tcp.disable ts a) × Succeeds (Tcp.clear_table ts a)
    unfolding Tcp.enable Tcp.disable Tcp.clear_table TdfTable.enable_table TdfTable.disable_table
        TdfTable.clear
    switch-Succeeds (t ∷ []) = (
      (
        _,
        refl,
        with_table-IsValid a _ v
            (record { sorted = v.tdf_valid.sorted; no_null = v.tdf_valid.no_null }),
      ),
      (
        _,
        refl,
        with_table-IsValid a _ v
            (record { sorted = v.tdf_valid.sorted; no_null = v.tdf_valid.no_null }),
      ),
      (_, refl, with_table-IsValid a _ v (record { sorted = tt; no_null = tt })),
    )
    switch-Succeeds _ = ((a, refl, v), (a, refl, v), (a, refl, v))

    pub set_bounds-Succeeds : (ts : List Bytes) → Succeeds (Tcp.set_bounds ts a)
    unfolding Tcp.set_bounds
    set_bounds-Succeeds (t ∷ lo ∷ hi ∷ []) = (_, refl, unchanged_parts a _ v refl refl refl)
    set_bounds-Succeeds _ = (a, refl, v)

    pub set_gains-Succeeds : (ts : List Bytes) → Succeeds (Tcp.set_gains ts a)
    unfolding Tcp.set_gains
    set_gains-Succeeds (t ∷ x ∷ y ∷ z ∷ []) = (_, refl, unchanged_parts a _ v refl refl refl)
    set_gains-Succeeds _ = (a, refl, v)

    pub one_value-Succeeds :
        (ts : List Bytes)
        → Succeeds (Tcp.set_target_load ts a)
          × Succeeds (Tcp.set_period ts a)
          × Succeeds (Tcp.set_threshold ts a)
          × Succeeds (Tcp.set_mode ts a)
          × Succeeds (Tcp.set_sim_gain ts a)
    unfolding Tcp.set_target_load Tcp.set_period Tcp.set_threshold Tcp.set_mode Tcp.set_sim_gain
    one_value-Succeeds (t ∷ x ∷ []) = (
      (_, refl, unchanged_parts a _ v refl refl refl),
      (_, refl, unchanged_parts a _ v refl refl refl),
      (_, refl, unchanged_parts a _ v refl refl refl),
      (_, refl, unchanged_parts a _ v refl refl refl),
      (_, refl, unchanged_parts a _ v refl refl refl),
    )
    one_value-Succeeds _ = ((a, refl, v), (a, refl, v), (a, refl, v), (a, refl, v), (a, refl, v))

    pub set_flag-Succeeds :
        (z : ℤ) (ts : List Bytes)
        → Succeeds (Tcp.set_suspensions z ts a) × Succeeds (Tcp.set_monitored z ts a)
    unfolding Tcp.set_suspensions Tcp.set_monitored
    set_flag-Succeeds z (t ∷ []) = (
      (_, refl, unchanged_parts a _ v refl refl refl),
      (_, refl, unchanged_parts a _ v refl refl refl),
    )
    set_flag-Succeeds z _ = ((a, refl, v), (a, refl, v))

    pub hosts-Succeeds :
        (h : HostTime) (ts : List Bytes)
        → Succeeds (Tcp.suspend h ts a) × Succeeds (Tcp.resume h ts a)
    unfolding Tcp.suspend Tcp.resume stop_time start_time
    hosts-Succeeds h (t ∷ []) = (
      set_hosts-Succeeds sem_stop _ (omega arith) (unchanged_parts a _ v refl refl refl),
      set_hosts-Succeeds sem_go _ (omega arith) (unchanged_parts a _ v refl refl refl),
    )
    hosts-Succeeds h _ = ((a, refl, v), (a, refl, v))

    pub dispatch_late-Succeeds :
        (h : HostTime) (n : ℤ) (ts : List Bytes) → Succeeds (dispatch_late h n ts a)
    unfolding dispatch_late
    dispatch_late-Succeeds h n ts =
        if_either Succeeds (is_number n 23) (λ _. (one_value-Succeeds ts).2)
          (if_either Succeeds (is_number n 24) (λ _. (set_flag-Succeeds (pos 1) ts).0)
            (if_either Succeeds (is_number n 25) (λ _. (set_flag-Succeeds (pos 0) ts).0)
              (if_either Succeeds (is_number n 26) (λ _. (set_flag-Succeeds (pos 1) ts).1)
                (if_either Succeeds (is_number n 27) (λ _. (set_flag-Succeeds (pos 0) ts).1)
                  (if_either Succeeds (is_number n 28) (λ _. (switch-Succeeds ts).2)
                    (if_either Succeeds (is_number n 30) (λ _. (hosts-Succeeds h ts).0)
                      (if_either Succeeds (is_number n 31) (λ _. (hosts-Succeeds h ts).1)
                        (if_either Succeeds (is_number n 32) (λ _. (one_value-Succeeds ts).3)
                          (if_either Succeeds (is_number n 33) (λ _. (one_value-Succeeds ts).4)
                            (a, refl, v))))))))))
