-- ===== src/Message/Forced.antt =====
-- Messages in a row: an enforced TDF stays, whatever the other agents report; and the virtual hosts'
-- suspension and resumption by protocols 30 and 31.
use virtual_time_synchroniza.Prelude.{
  ◌≡◌, ◌≢◌, refl, ◌∙◌, false, Bytes, List, [], ◌∷◌, Outcome, done, crash, ◌>>=◌, arith,
}
use mathlib.Core.Path.{subst}
use virtual_time_synchroniza.Floats.{Floats, IsOrdered}
use virtual_time_synchroniza.CLib.{atoi}
use virtual_time_synchroniza.TdfTable
use virtual_time_synchroniza.Agent.{Agent, IsValid, execute}
use virtual_time_synchroniza.Message.Tcp.{is_number}
use virtual_time_synchroniza.Message.{
  udp_set_tdf, udp_set_interface, dispatch_udp, udp_tokens, parse_udp_msg,
}
use virtual_time_synchroniza.Message.Validity.{if_either, parse_udp_msg-Succeeds}

module _ ⦃fl : Floats⦄ where
  open fl use {l}

  -- The run, if it succeeds, keeps the TDF in force, the table disabled, the settings and the shared
  -- memory.
  abbrev pub Keeps : Agent → Agent → Type 0
  Keeps a a' =
      (a'.tdf_table.latest_tdf ≡ a.tdf_table.latest_tdf)
      × (a'.tdf_table.is_enabled ≡ false)
      × (a'.tdf_table.notifications ≡ a.tdf_table.notifications)
      × (a'.config ≡ a.config)
      × (a'.shared ≡ a.shared)

  abbrev KeptBy : Agent → Outcome Agent → Type 0
  KeptBy a (done a') = Keeps a a'
  KeptBy a (crash e) = Unit

  udp_set_tdf-Keeps :
      (ts : List Bytes) (a : Agent) → a.tdf_table.is_enabled ≡ false → KeptBy a (udp_set_tdf ts a)
  unfolding udp_set_tdf TdfTable.set
  udp_set_tdf-Keeps (t ∷ host ∷ tdf ∷ []) a off = ground arith
  udp_set_tdf-Keeps _ a off = (refl, off, refl, refl, refl)

  udp_set_interface-Keeps :
      (ts : List Bytes) (a : Agent)
      → a.tdf_table.is_enabled ≡ false
      → KeptBy a (udp_set_interface ts a)
  unfolding udp_set_interface execute
  udp_set_interface-Keeps (t ∷ name ∷ rate ∷ delay ∷ []) a off = (refl, off, refl, refl, refl)
  udp_set_interface-Keeps _ a off = (refl, off, refl, refl, refl)

  udp_tokens-Keeps :
      (ts : List Bytes) (a : Agent) → a.tdf_table.is_enabled ≡ false → KeptBy a (udp_tokens ts a)
  unfolding dispatch_udp
  udp_tokens-Keeps [] a off = tt
  udp_tokens-Keeps (t ∷ ts) a off =
      let same : KeptBy a (done a) = (refl, off, refl, refl, refl) in
      if_either (KeptBy a) (is_number (atoi t) 10) (λ _. udp_set_tdf-Keeps (t ∷ ts) a off)
        (if_either (KeptBy a) (is_number (atoi t) 3) {y = done a}
          (λ _. udp_set_interface-Keeps (t ∷ ts) a off) same)

  module _ (split : Bytes → List Bytes) where
    -- The messages in the order in which they arrive.
    unfoldable pub process_all : List Bytes → Agent → Outcome Agent
    process_all [] a = done a
    process_all (m ∷ ms) a = parse_udp_msg split m a >>= λ a'. process_all ms a'

    -- With the table of a valid agent disabled, as `enforceTdf` leaves it, no sequence of messages
    -- over UDP crashes the agent, changes the TDF in force, enables the table or wakes the thread
    -- that adjusts the virtual time, nor touches the settings and the shared memory, and the agent
    -- stays valid. Of the tokens of each message it is only taken that there is one.
    pub process_all-Keeps :
        (laws : IsOrdered l) (ms : List Bytes) (a : Agent)
        → ((m : Bytes) → split m ≢ [])
        → IsValid a
        → a.tdf_table.is_enabled ≡ false
        → (a' : Agent) × (process_all ms a ≡ done a') × IsValid a' × Keeps a a'
    unfolding process_all parse_udp_msg
    process_all-Keeps laws [] a ne v off = (a, refl, v, (refl, off, refl, refl, refl))
    process_all-Keeps laws (m ∷ ms) a ne v off =
        let (a1, run, v1) = parse_udp_msg-Succeeds laws split m a (ne m) v in
        let k : Keeps a a1 = subst (KeptBy a) run (udp_tokens-Keeps (split m) a off) in
        let (a2, run2, v2, k2) = process_all-Keeps laws ms a1 ne v1 k.1 in
        (a2, cc (run, run2), v2, (k2.0 ∙ k.0, k2.1, k2.2 ∙ k.2, k2.3 ∙ k.3, k2.4 ∙ k.4))
