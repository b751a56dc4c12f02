-- ===== src/Message/Crash.antt =====
-- The messages over TCP: each leaves a valid agent valid, except for one that crashes it.
use virtual_time_synchroniza.Prelude.{
  ℕ, ◌≡◌, ◌≢◌, refl, ◌⊎◌, inl, inr, Bool, true, false, Bytes, List, [], ◌∷◌, none, Outcome, crash,
  null_pointer, arith, if◌then◌else◌,
}
use virtual_time_synchroniza.Prelude.Int.{ℤ, pos, negsuc}
use virtual_time_synchroniza.Floats.{Floats}
use virtual_time_synchroniza.CLib.{atoi}
use virtual_time_synchroniza.OrderedMap.{find}
use virtual_time_synchroniza.IfaceTable.Laws.{set_flag_keep_lem}
use virtual_time_synchroniza.Timer.{HostTime}
use virtual_time_synchroniza.Agent.{Agent, IsValid}
use virtual_time_synchroniza.Message.Tcp
use virtual_time_synchroniza.Message.Tcp.{is_number, dispatch_tcp, dispatch_late}
use virtual_time_synchroniza.Message.{parse_tcp_msg, tcp_tokens}
use virtual_time_synchroniza.Message.Validity.{Succeeds, if_either}
use virtual_time_synchroniza.Message.Handlers.{
  replace_interface-Succeeds, enforce-Succeeds, switch-Succeeds, set_bounds-Succeeds,
  set_gains-Succeeds, one_value-Succeeds, dispatch_late-Succeeds,
}

pub is_number→eq : (z : ℤ) (k : ℕ) → is_number z k ≡ true → z ≡ pos k
is_number→eq (pos n) k h = ground arith
is_number→eq (negsuc n) k h = cc

ne_of_is_number : (z : ℤ) (k : ℕ) → is_number z k ≡ false → z ≢ pos k
ne_of_is_number (pos n) k h = ground arith
ne_of_is_number (negsuc n) k h = λ e. cc

module _ ⦃fl : Floats⦄ where
  -- The protocol number 2 with the name of an interface that the table does not hold.
  abbrev pub NamesMissing : List Bytes → Agent → Type 0
  NamesMissing (t ∷ name ∷ []) a = (atoi t ≡ pos 2) × (find name a.iface_table ≡ none)
  NamesMissing _ a = ⊥

  -- The run crashes exactly where the message names such an interface, and else succeeds.
  abbrev pub Acceptable : List Bytes → Agent → Outcome Agent → Type 0
  Acceptable ts a r =
      (Succeeds r × ¬ (NamesMissing ts a)) ⊎ ((r ≡ crash null_pointer) × NamesMissing ts a)

  if_split {ℓ} :
      (P : Outcome Agent → Type ℓ) (b : Bool) {x y : Outcome Agent}
      → (b ≡ true → P x)
      → (b ≡ false → P y)
      → P (if b then x else y)
  if_split P true p q = p refl
  if_split P false p q = q refl

  NamesMissing-number :
      (t : Bytes) (ts : List Bytes) (a : Agent) → NamesMissing (t ∷ ts) a → atoi t ≡ pos 2
  NamesMissing-number t (name ∷ []) a m = m.0
  NamesMissing-number t [] a m = absurd m
  NamesMissing-number t (x ∷ y ∷ ts) a m = absurd m

  module _ (a : Agent) (v : IsValid a) where
    drop_interface-Acceptable :
        (t : Bytes) (ts : List Bytes)
        → atoi t ≡ pos 2
        → Acceptable (t ∷ ts) a (Tcp.drop_interface (t ∷ ts) a)
    unfolding Tcp.drop_interface
    drop_interface-Acceptable t (name ∷ []) two =
        elim (set_flag_keep_lem a.iface_table name false v.iface_valid) [
          | inl (missing, run) ↦ inr (rw run, (two, missing))
          | inr (e, table, found, run, flagged, others, ok) ↦ inl (
            rw run (
              record a { iface_table = table },
              refl,
              record {
                tdf_valid = v.tdf_valid;
                iface_valid = ok;
                semaphores_all = v.semaphores_all;
              },
            ),
            λ m. cc (found, m.1),
          )
        ]
    drop_interface-Acceptable t [] two = inl ((a, refl, v), λ m. m)
    drop_interface-Acceptable t (x ∷ y ∷ ts) two = inl ((a, refl, v), λ m. m)

    dispatch_tcp-Acceptable :
        (h : HostTime) (t : Bytes) (ts : List Bytes)
        → Acceptable (t ∷ ts) a (dispatch_tcp h (atoi t) (t ∷ ts) a)
    unfolding dispatch_tcp
    dispatch_tcp-Acceptable h t ts =
        let n = atoi t in
        let all = t ∷ ts in
        if_split (Acceptable all a) (is_number n 1)
          (λ one. inl (
            replace_interface-Succeeds a v all,
            λ m. cc (is_number→eq n 1 one, NamesMissing-number t ts a m),
          ))
          λ _.
            if_split (Acceptable all a) (is_number n 2)
              (λ two. drop_interface-Acceptable t ts (is_number→eq n 2 two))
              λ other. inl (
                if_either Succeeds (is_number n 11) (λ _. enforce-Succeeds a v all)
                    (if_either Succeeds (is_number n 12) (λ _. (switch-Succeeds a v all).0)
                      (if_either Succeeds (is_number n 13) (λ _. (switch-Succeeds a v all).1)
                        (if_either Succeeds (is_number n 14) (λ _. set_bounds-Succeeds a v all)
                          (if_either Succeeds (is_number n 20) (λ _. set_gains-Succeeds a v all)
                            (if_either Succeeds (is_number n 21)
                              (λ _. (one_value-Succeeds a v all).0)
                              (if_either Succeeds (is_number n 22)
                                (λ _. (one_value-Succeeds a v all).1)
                                (dispatch_late-Succeeds a v h n all))))))),
                λ m. ne_of_is_number n 2 other (NamesMissing-number t ts a m),
              )

    -- A message over TCP crashes a valid agent exactly where it is protocol 2 with the name of an
    -- interface that the table does not hold; every other message, well-formed or not, leaves the
    -- agent valid. Of the tokens it is only taken that there is one.
    pub parse_tcp_msg-Acceptable :
        (split : Bytes → List Bytes) (h : HostTime) (msg : Bytes)
        → split msg ≢ []
        → Acceptable (split msg) a (parse_tcp_msg split h msg a)
    unfolding parse_tcp_msg
    parse_tcp_msg-Acceptable split h msg ne = go (split msg) ne
      where
        go : (ts : List Bytes) → ts ≢ [] → Acceptable ts a (tcp_tokens h ts a)
        go [] e = absurd (e refl)
        go (t ∷ ts) e = dispatch_tcp-Acceptable h t ts
