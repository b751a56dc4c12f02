-- ===== src/Message/Validity.antt =====
-- Every message leaves the agent valid, and which message can crash it.
use virtual_time_synchroniza.Prelude.{
  ◌≡◌, ◌≢◌, refl, Bool, true, false, Bytes, List, [], ◌∷◌, Outcome, done, if◌then◌else◌,
}
use virtual_time_synchroniza.Prelude.Int.{ℤ}
use virtual_time_synchroniza.Floats.{Floats, IsOrdered}
use virtual_time_synchroniza.CLib.{atoi, atoll}
use virtual_time_synchroniza.Tc.{Commands}
use virtual_time_synchroniza.TdfTable
use virtual_time_synchroniza.TdfTable.Update.{set_lem, IsValid as TdfTableIsValid}
use virtual_time_synchroniza.IfaceTable
use virtual_time_synchroniza.IfaceTable.Laws.{set-IsValid}
use virtual_time_synchroniza.Agent.{Agent, IsValid, execute}
use virtual_time_synchroniza.Message.Tcp.{is_number}
use virtual_time_synchroniza.Message.{
  udp_set_tdf, udp_set_interface, udp_tokens, dispatch_udp, parse_udp_msg,
}

module _ ⦃fl : Floats⦄ where
  open fl use {l}

  -- The run ends in a valid agent.
  abbrev pub Succeeds : Outcome Agent → Type 0
  Succeeds r = (a : Agent) × (r ≡ done a) × IsValid a

  -- A change that leaves the tables and the semaphores alone.
  pub unchanged_parts :
      (a a' : Agent)
      → IsValid a
      → a'.tdf_table ≡ a.tdf_table
      → a'.iface_table ≡ a.iface_table
      → a'.semaphores ≡ a.semaphores
      → IsValid a'
  unchanged_parts a a' v e f g = record {
    tdf_valid = rw e v.tdf_valid;
    iface_valid = rw f v.iface_valid;
    semaphores_all = rw g v.semaphores_all;
  }

  pub if_either {ℓ} :
      (P : Outcome Agent → Type ℓ) (b : Bool) {x y : Outcome Agent}
      → (b ≡ true → P x)
      → P y
      → P (if b then x else y)
  if_either P true p q = p refl
  if_either P false p q = q

  pub with_table-IsValid :
      (a : Agent) (t : TdfTable.TdfTable)
      → IsValid a
      → TdfTableIsValid t
      → IsValid (record a { tdf_table = t })
  with_table-IsValid a t v ok = record {
    tdf_valid = ok;
    iface_valid = v.iface_valid;
    semaphores_all = v.semaphores_all;
  }

  module _ (laws : IsOrdered l) where
    udp_set_tdf-Succeeds : (ts : List Bytes) (a : Agent) → IsValid a → Succeeds (udp_set_tdf ts a)
    unfolding udp_set_tdf
    udp_set_tdf-Succeeds (t ∷ host ∷ tdf ∷ []) a v =
        let (table, run, ok, _, _, _, _) =
          set_lem laws a.config a.tdf_table host (fl.widen (fl.atof tdf)) v.tdf_valid in
        rw run (record a { tdf_table = table }, refl, with_table-IsValid a table v ok)
    udp_set_tdf-Succeeds _ a v = (a, refl, v)

  pub set_interface-IsValid :
      (a : Agent) (name : Bytes) (rate delay : ℤ) (cmds : Commands)
      → IsValid a
      → IsValid
          (execute cmds (record a { iface_table = IfaceTable.set a.iface_table name rate delay }))
  unfolding execute
  set_interface-IsValid a name rate delay cmds v = record {
    tdf_valid = v.tdf_valid;
    iface_valid = set-IsValid a.iface_table name rate delay v.iface_valid;
    semaphores_all = v.semaphores_all;
  }

  udp_set_interface-Succeeds :
      (ts : List Bytes) (a : Agent) → IsValid a → Succeeds (udp_set_interface ts a)
  unfolding udp_set_interface
  udp_set_interface-Succeeds (t ∷ name ∷ rate ∷ delay ∷ []) a v =
      (_, refl, set_interface-IsValid a name (atoll rate) (atoll delay) _ v)
  udp_set_interface-Succeeds _ a v = (a, refl, v)

  -- A message over UDP never crashes a valid agent and leaves it valid, whatever bytes it holds. Of
  -- the tokens it is only taken that there is one.
  pub parse_udp_msg-Succeeds :
      (laws : IsOrdered l) (split : Bytes → List Bytes) (msg : Bytes) (a : Agent)
      → split msg ≢ []
      → IsValid a
      → Succeeds (parse_udp_msg split msg a)
  unfolding parse_udp_msg
  parse_udp_msg-Succeeds laws split msg a ne v = go (split msg) ne
    where
      go : (ts : List Bytes) → ts ≢ [] → Succeeds (udp_tokens ts a)
      go [] h = absurd (h refl)
      go (t ∷ ts) h =
          unfold dispatch_udp in
          if_either Succeeds (is_number (atoi t) 10) (λ _. udp_set_tdf-Succeeds laws (t ∷ ts) a v)
            (if_either Succeeds (is_number (atoi t) 3)
              (λ _. udp_set_interface-Succeeds (t ∷ ts) a v) (a, refl, v))
