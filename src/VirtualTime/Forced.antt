-- ===== src/VirtualTime/Forced.antt =====
-- From the controller's message to the shared memory: an enforced TDF.
use virtual_time_synchroniza.Prelude.{◌≡◌, ◌≢◌, refl, ◌∙◌, ap, Bytes, List, [], ◌∷◌, done}
use virtual_time_synchroniza.Floats.{Floats, IsOrdered}
use virtual_time_synchroniza.TdfTable.{enforce_tdf}
use virtual_time_synchroniza.Timer.{HostTime}
use virtual_time_synchroniza.Agent.{Agent, IsValid}
use virtual_time_synchroniza.Message.Tcp.{enforce}
use virtual_time_synchroniza.Message.Validity.{with_table-IsValid}
use virtual_time_synchroniza.Message.Forced.{process_all, process_all-Keeps}
use virtual_time_synchroniza.VirtualTime.{adjust}
use virtual_time_synchroniza.VirtualTime.Adjust.{adjust_done}

module _ ⦃fl : Floats⦄ where
  open fl use {l, widen, atof}

  module _ (split : Bytes → List Bytes) where
    -- A TDF that the controller enforces on a valid agent is in the shared memory after the next
    -- round, whatever sequence of messages over UDP comes between, and no step of these crashes.
    -- Of the tokens of each of these messages it is only taken that there is one.
    pub adjust-enforce :
        (laws : IsOrdered l) (token tdf : Bytes) (ms : List Bytes) (stop begin : HostTime)
        (a : Agent)
        → ((m : Bytes) → split m ≢ [])
        → IsValid a
        → (a1 a2 a3 : Agent) × (enforce (token ∷ tdf ∷ []) a ≡ done a1)
          × (process_all split ms a1 ≡ done a2)
          × (adjust stop begin a2 ≡ done a3)
          × IsValid a3
          × (a3.shared.tdf ≡ widen (atof tdf))
    unfolding enforce enforce_tdf
    adjust-enforce laws token tdf ms stop begin a some_tokens v =
        let a1 : Agent = record a { tdf_table = enforce_tdf a.tdf_table (widen (atof tdf)) } in
        let v1 =
          with_table-IsValid a (enforce_tdf a.tdf_table (widen (atof tdf))) v
            (record { sorted = v.tdf_valid.sorted; no_null = v.tdf_valid.no_null }) in
        let (a2, run2, v2, kept) = process_all-Keeps split laws ms a1 some_tokens v1 refl in
        let (a3, run3, v3, equal, table, _) = adjust_done stop begin a2 v2 in
        (a1, a2, a3, refl, run2, run3, v3, equal ∙ ap (λ t. t.latest_tdf) table ∙ kept.0)
