-- ===== src/Message/Arity.antt =====
-- The messages that change nothing: an unknown protocol number, or a wrong number of tokens.
use virtual_time_synchroniza.Prelude.{
  ℕ, ◌≡◌, ◌≢◌, refl, Bytes, List, [], ◌∷◌, Outcome, done, All, length, if◌then◌else◌,
}
use virtual_time_synchroniza.Prelude.Int.{ℤ, pos}
use virtual_time_synchroniza.Floats.{Floats}
use virtual_time_synchroniza.Timer.{HostTime}
use virtual_time_synchroniza.Agent.{Agent}
use virtual_time_synchroniza.Message.Tcp
use virtual_time_synchroniza.Message.Tcp.{is_number, dispatch_tcp, dispatch_late}
use virtual_time_synchroniza.Message.{udp_set_tdf, udp_set_interface, dispatch_udp}
use virtual_time_synchroniza.Message.Validity.{if_either}
use virtual_time_synchroniza.Message.Crash.{is_number→eq}

-- The protocol numbers, each with the number of tokens of its messages, its own included.
abbrev pub late_protocols : List (ℕ × ℕ)
late_protocols =
    (23, 2)
    ∷ (24, 1)
    ∷ (25, 1)
    ∷ (26, 1)
    ∷ (27, 1)
    ∷ (28, 1)
    ∷ (30, 1)
    ∷ (31, 1)
    ∷ (32, 2)
    ∷ (33, 2)
    ∷ []

abbrev pub tcp_protocols : List (ℕ × ℕ)
tcp_protocols =
    (1, 4)
    ∷ (2, 2)
    ∷ (11, 2)
    ∷ (12, 1)
    ∷ (13, 1)
    ∷ (14, 3)
    ∷ (20, 4)
    ∷ (21, 2)
    ∷ (22, 2)
    ∷ late_protocols

abbrev pub udp_protocols : List (ℕ × ℕ)
udp_protocols = (10, 3) ∷ (3, 4) ∷ []

-- The message is of none of the listed forms.
abbrev pub Unmatched : List (ℕ × ℕ) → ℤ → List Bytes → Type 0
Unmatched protocols n ts = All (λ p. n ≡ pos p.0 → length ts ≢ p.1) protocols

module _ ⦃fl : Floats⦄ where
  skip :
      (a : Agent) (n : ℤ) (k : ℕ) {x y : Outcome Agent}
      → (n ≡ pos k → x ≡ done a)
      → y ≡ done a
      → (if is_number n k then x else y) ≡ done a
  skip a n k e f = if_either (λ r. r ≡ done a) (is_number n k) (λ h. e (is_number→eq n k h)) f

  four_tokens :
      (ts : List Bytes) (a : Agent)
      → length ts ≢ 4
      → (Tcp.replace_interface ts a ≡ done a)
        × (Tcp.set_gains ts a ≡ done a)
        × (udp_set_interface ts a ≡ done a)
  unfolding Tcp.replace_interface Tcp.set_gains udp_set_interface
  four_tokens (t ∷ x ∷ y ∷ z ∷ []) a h = absurd (h refl)
  four_tokens _ a h = (refl, refl, refl)

  three_tokens :
      (ts : List Bytes) (a : Agent)
      → length ts ≢ 3
      → (Tcp.set_bounds ts a ≡ done a) × (udp_set_tdf ts a ≡ done a)
  unfolding Tcp.set_bounds udp_set_tdf
  three_tokens (t ∷ x ∷ y ∷ []) a h = absurd (h refl)
  three_tokens _ a h = (refl, refl)

  two_tokens :
      (ts : List Bytes) (a : Agent)
      → length ts ≢ 2
      → (Tcp.drop_interface ts a ≡ done a)
        × (Tcp.enforce ts a ≡ done a)
        × (Tcp.set_target_load ts a ≡ done a)
        × (Tcp.set_period ts a ≡ done a)
        × (Tcp.set_threshold ts a ≡ done a)
        × (Tcp.set_mode ts a ≡ done a)
        × (Tcp.set_sim_gain ts a ≡ done a)
  unfolding Tcp.drop_interface Tcp.enforce Tcp.set_target_load Tcp.set_period Tcp.set_threshold
      Tcp.set_mode Tcp.set_sim_gain
  two_tokens (t ∷ x ∷ []) a h = absurd (h refl)
  two_tokens _ a h = (refl, refl, refl, refl, refl, refl, refl)

  one_token :
      (h : HostTime) (ts : List Bytes) (a : Agent)
      → length ts ≢ 1
      → (Tcp.enable ts a ≡ done a)
        × (Tcp.disable ts a ≡ done a)
        × (Tcp.clear_table ts a ≡ done a)
        × ((z : ℤ) → Tcp.set_suspensions z ts a ≡ done a)
        × ((z : ℤ) → Tcp.set_monitored z ts a ≡ done a)
        × (Tcp.suspend h ts a ≡ done a)
        × (Tcp.resume h ts a ≡ done a)
  unfolding Tcp.enable Tcp.disable Tcp.clear_table Tcp.set_suspensions Tcp.set_monitored Tcp.suspend
      Tcp.resume
  one_token h (t ∷ []) a k = absurd (k refl)
  one_token h _ a k = (refl, refl, refl, λ z. refl, λ z. refl, refl, refl)

  dispatch_late-Unmatched :
      (h : HostTime) (n : ℤ) (ts : List Bytes) (a : Agent)
      → Unmatched late_protocols n ts
      → dispatch_late h n ts a ≡ done a
  unfolding dispatch_late
  dispatch_late-Unmatched h n ts a
        (p23, (p24, (p25, (p26, (p27, (p28, (p30, (p31, (p32, (p33, _)))))))))) =
      skip a n 23 (λ e. (two_tokens ts a (p23 e)).4)
        (skip a n 24 (λ e. (one_token h ts a (p24 e)).3 (pos 1))
          (skip a n 25 (λ e. (one_token h ts a (p25 e)).3 (pos 0))
            (skip a n 26 (λ e. (one_token h ts a (p26 e)).4 (pos 1))
              (skip a n 27 (λ e. (one_token h ts a (p27 e)).4 (pos 0))
                (skip a n 28 (λ e. (one_token h ts a (p28 e)).2)
                  (skip a n 30 (λ e. (one_token h ts a (p30 e)).5)
                    (skip a n 31 (λ e. (one_token h ts a (p31 e)).6)
                      (skip a n 32 (λ e. (two_tokens ts a (p32 e)).5)
                        (skip a n 33 (λ e. (two_tokens ts a (p33 e)).6) refl)))))))))

  -- Over TCP, a protocol number that is not in the table `tcp_protocols`, or a message with
  -- another number of tokens than that table says, leaves the agent as it is.
  pub dispatch_tcp-Unmatched :
      (h : HostTime) (n : ℤ) (ts : List Bytes) (a : Agent)
      → Unmatched tcp_protocols n ts
      → dispatch_tcp h n ts a ≡ done a
  unfolding dispatch_tcp
  dispatch_tcp-Unmatched h n ts a
        (p1, (p2, (p11, (p12, (p13, (p14, (p20, (p21, (p22, late))))))))) =
      skip a n 1 (λ e. (four_tokens ts a (p1 e)).0)
        (skip a n 2 (λ e. (two_tokens ts a (p2 e)).0)
          (skip a n 11 (λ e. (two_tokens ts a (p11 e)).1)
            (skip a n 12 (λ e. (one_token h ts a (p12 e)).0)
              (skip a n 13 (λ e. (one_token h ts a (p13 e)).1)
                (skip a n 14 (λ e. (three_tokens ts a (p14 e)).0)
                  (skip a n 20 (λ e. (four_tokens ts a (p20 e)).1)
                    (skip a n 21 (λ e. (two_tokens ts a (p21 e)).2)
                      (skip a n 22 (λ e. (two_tokens ts a (p22 e)).3)
                        (dispatch_late-Unmatched h n ts a late)))))))))

  -- Over UDP, a protocol number that is not in the table `udp_protocols`, or a message with
  -- another number of tokens than that table says, leaves the agent as it is.
  pub dispatch_udp-Unmatched :
      (n : ℤ) (ts : List Bytes) (a : Agent)
      → Unmatched udp_protocols n ts
      → dispatch_udp n ts a ≡ done a
  unfolding dispatch_udp
  dispatch_udp-Unmatched n ts a (p10, (p3, _)) =
      skip a n 10 (λ e. (three_tokens ts a (p10 e)).1)
        (skip a n 3 (λ e. (four_tokens ts a (p3 e)).2) refl)
