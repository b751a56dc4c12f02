-- ===== src/Cluster/Projection.antt =====
-- One host of a network: what a run does to its table is what its server makes of the datagrams that it
-- received.
use virtual_time_synchroniza.Prelude.{
  ℕ, ◌≡◌, ◌≢◌, refl, sym, ap, ◌∙◌, inl, inr, false, Bytes, List, [], ◌∷◌, ◌++◌, none, some, done,
  crash, done_injective, bind_done, arith, length, some_injective,
}
use Prim.Native.Nat.{Ordering}
use virtual_time_synchroniza.Floats.{Floats, IsOrdered}
use virtual_time_synchroniza.Configuration.{Configuration}
use virtual_time_synchroniza.Timer.{SimulatorsState, HostTime}
use virtual_time_synchroniza.OrderedMap.{compare_bytes, find, insert}
use virtual_time_synchroniza.OrderedMap.Laws.{find-insert_self, find-insert_ne}
use virtual_time_synchroniza.OrderedMap.Order.{same_or_not, compare_self, eq_of_compare}
use virtual_time_synchroniza.TdfTable.{set}
use virtual_time_synchroniza.TdfTable.Update.{set_lem, IsValid as TdfTableIsValid}
use virtual_time_synchroniza.Agent.{Agent, IsValid}
use virtual_time_synchroniza.Cluster.{value}
use virtual_time_synchroniza.UdpAsyncServer.Receive.{handle_receive_from-set}
use virtual_time_synchroniza.CpuMonitor.{Cpu, monitor}
use virtual_time_synchroniza.VirtualTime.Adjust.{adjust_done}
use virtual_time_synchroniza.UdpAsyncServer.{handle_receive_from, serve, max_length}
use virtual_time_synchroniza.Cluster.Network.{
  Host, Network, Event, round, receive, adjusts, nth, round_at, receive_at, adjust_at, step, run,
}
use virtual_time_synchroniza.Cluster.Safety.{HostIsSound, IsReport}

module _ ⦃fl : Floats⦄ where
  open fl use {LongDouble, l}

  -- The datagram that an event brings to a host, as a list of at most one.
  unfoldable pub received_by : Bytes → Event → Network → List Bytes
  received_by name (round k cpu sim now) net = []
  received_by name (adjusts k stop begin) net = []
  received_by name (receive k n) net = elim (compare_bytes name k) [
    | Ordering.eq ↦ elim (nth net.sent n) [ none ↦ [] | some d ↦ d ∷ [] ]
    | _ ↦ []
  ]

  -- The datagrams that a run brings to a host, in their order.
  unfoldable pub heard : (Bytes → List Bytes) → Bytes → List Event → Network → List Bytes
  heard split name [] net = []
  heard split name (e ∷ es) net = elim (step split e net) [
    | crash f ↦ []
    | done net' ↦ received_by name e net ++ heard split name es net'
  ]

  -- An agent with the table and the settings of a host, and a buffer of the right size.
  pub record Agrees (h : Host) (buffer : Bytes) (a : Agent) : Type 0 where
    pub same_table : a.tdf_table ≡ h.agent.tdf_table
    pub same_config : a.config ≡ h.agent.config
    pub sized : length buffer ≡ max_length

  module _ (split : Bytes → List Bytes) where
    -- After an event the host is there, and agrees with an agent that agreed before and takes in what it received.
    unfoldable pub Follows : Bytes → Event → Network → Network → Bytes → Agent → Type 0
    Follows name e net net' buffer a =
        (h' : Host) × (buffer' : Bytes) × (a' : Agent) × (find name net'.hosts ≡ some h')
        × (serve split (received_by name e net) buffer a ≡ done (buffer', a'))
        × Agrees h' buffer' a'

    -- An event that brings a host nothing and changes at most the rest of it.
    quiet-Follows :
        (name k : Bytes) (e : Event) (net net' : Network) (h g g' : Host) (buffer : Bytes)
        (a : Agent)
        → received_by name e net ≡ []
        → find name net.hosts ≡ some h
        → (name ≡ k → find k net.hosts ≡ some g)
        → net'.hosts ≡ insert k g' net.hosts
        → (name ≡ k → (g.agent.tdf_table ≡ g'.agent.tdf_table) × (g.agent.config ≡ g'.agent.config))
        → Agrees h buffer a
        → Follows name e net net' buffer a
    unfolding Follows serve
    quiet-Follows name k e net net' h g g' buffer a quiet found at_k changed keeps agrees =
        elim (same_or_not name k) [
          | inl at ↦
              let same : h ≡ g = some_injective h g (sym found ∙ rw at (at_k at)) in
              let (table, config) = keeps at in
              (
                g',
                buffer,
                a,
                rw (changed, at) (find-insert_self k g' net.hosts),
                rw quiet refl,
                record {
                  same_table = agrees.same_table ∙ ap (λ x. x.agent.tdf_table) same ∙ table;
                  same_config = agrees.same_config ∙ ap (λ x. x.agent.config) same ∙ config;
                  sized = agrees.sized;
                },
              )
          | inr ne ↦ (
            h,
            buffer,
            a,
            rw changed (find-insert_ne k name g' net.hosts ne ∙ found),
            rw quiet refl,
            agrees,
          )
        ]

    pub idle-Follows :
        (name : Bytes) (e : Event) (net net' : Network) (h : Host) (buffer : Bytes) (a : Agent)
        → received_by name e net ≡ []
        → net ≡ net'
        → find name net.hosts ≡ some h
        → Agrees h buffer a
        → Follows name e net net' buffer a
    unfolding Follows serve
    idle-Follows name e net net' h buffer a quiet same found agrees =
        (h, buffer, a, ap (λ x. find name x.hosts) (sym same) ∙ found, rw quiet refl, agrees)

    pub received_other :
        (name k : Bytes) (n : ℕ) (net : Network)
        → name ≢ k
        → received_by name (receive k n) net ≡ []
    unfolding received_by
    received_other name k n net ne = ground (arith, eq_of_compare name k)

    pub received_nothing :
        (name k : Bytes) (n : ℕ) (net : Network)
        → nth net.sent n ≡ none
        → received_by name (receive k n) net ≡ []
    unfolding received_by
    received_nothing name k n net nothing = ground arith

    received_self :
        (name : Bytes) (n : ℕ) (d : Bytes) (net : Network)
        → nth net.sent n ≡ some d
        → received_by name (receive name n) net ≡ d ∷ []
    unfolding received_by
    received_self name n d net was_sent = ground (arith, compare_self name)

    pub round-Follows :
        (name k : Bytes) (cpu : Cpu) (sim : SimulatorsState) (now : ℕ) (net net' : Network)
        (h g : Host) (buffer : Bytes) (a : Agent)
        → find name net.hosts ≡ some h
        → find k net.hosts ≡ some g
        → round_at k cpu sim now net g ≡ done net'
        → Agrees h buffer a
        → Follows name (round k cpu sim now) net net' buffer a
    unfolding round_at received_by
    round-Follows name k cpu sim now net net' h g buffer a found at_k goes agrees =
        let (r, _, e) =
          bind_done (monitor g.agent.config k cpu sim now g.cpu_monitor) _ net' goes in
        let g' : Host = record g { cpu_monitor = r.0 } in
        quiet-Follows name k (round k cpu sim now) net net' h g g' buffer a refl found (λ at. at_k)
          (sym (ap (λ x. x.hosts) (done_injective _ net' e))) (λ at. (refl, refl)) agrees

    pub adjust-Follows :
        (name k : Bytes) (stop begin : HostTime) (net net' : Network) (h g : Host) (buffer : Bytes)
        (a : Agent)
        → IsValid g.agent
        → find name net.hosts ≡ some h
        → find k net.hosts ≡ some g
        → adjust_at k stop begin net g ≡ done net'
        → Agrees h buffer a
        → Follows name (adjusts k stop begin) net net' buffer a
    unfolding adjust_at received_by
    adjust-Follows name k stop begin net net' h g buffer a valid found at_k goes agrees =
        let (b, adjusted, _, _, table, config) = adjust_done stop begin g.agent valid in
        let g' : Host = record g { agent = b } in
        let there : adjust_at k stop begin net g
            ≡ done (record net { hosts = insert k g' net.hosts }) =
          rw adjusted refl in
        quiet-Follows name k (adjusts k stop begin) net net' h g g' buffer a refl found (λ at. at_k)
          (sym (
            ap (λ x. x.hosts)
              (done_injective (record net { hosts = insert k g' net.hosts }) net'
                (sym there ∙ goes))))
          (λ at. (sym table, sym config)) agrees

    -- Another host receives.
    pub other-Follows :
        (name k d : Bytes) (n : ℕ) (net net' : Network) (h g : Host) (buffer : Bytes) (a : Agent)
        → name ≢ k
        → find name net.hosts ≡ some h
        → receive_at split k d net g ≡ done net'
        → Agrees h buffer a
        → Follows name (receive k n) net net' buffer a
    unfolding receive_at
    other-Follows name k d n net net' h g buffer a ne found goes agrees =
        let (r, _, e) =
          bind_done (handle_receive_from split false d g.buffer g.agent) _ net' goes in
        let g' : Host = record g { buffer = r.0; agent = r.1 } in
        quiet-Follows name k (receive k n) net net' h g g' buffer a (received_other name k n net ne)
          found (λ at. absurd (ne at)) (sym (ap (λ x. x.hosts) (done_injective _ net' e)))
          (λ at. absurd (ne at)) agrees

    module _ (cfg : Configuration) (processors : Bytes → ℕ) (laws : IsOrdered l) where
      -- A report does the same to the host and to the agent.
      pub report-Follows :
          (name d : Bytes) (n : ℕ) (net net' : Network) (h : Host) (buffer : Bytes) (a : Agent)
          → HostIsSound cfg split processors name h
          → IsReport cfg split processors d
          → nth net.sent n ≡ some d
          → receive_at split name d net h ≡ done net'
          → Agrees h buffer a
          → Follows name (receive name n) net net' buffer a
      unfolding Follows serve receive_at
      report-Follows name d n net net' h buffer a hs (from, tdf, is, _, deliverable) was_sent run
            agrees =
          let table_ok : TdfTableIsValid a.tdf_table = rw agrees.same_table hs.valid.tdf_valid in
          let (t, set_h, _, _, _, _, _) =
            set_lem laws h.agent.config h.agent.tdf_table from (value tdf) hs.valid.tdf_valid in
          let set_a : set a.config a.tdf_table from (value tdf) ≡ done t =
            rw (agrees.same_config, agrees.same_table) set_h in
          let (b1, run_h, _) =
            handle_receive_from-set split from tdf h.buffer h.agent t deliverable hs.sized set_h in
          let (b2, run_a, size) =
            handle_receive_from-set split from tdf buffer a t deliverable agrees.sized set_a in
          let h' : Host = record h { buffer = b1; agent = record (h.agent) { tdf_table = t } } in
          let where_to : record net { hosts = insert name h' net.hosts } ≡ net' =
            done_injective (record net { hosts = insert name h' net.hosts }) net'
              (sym (rw (is, run_h) refl) ∙ run) in
          (
            h',
            b2,
            record a { tdf_table = t },
            ap (λ x. find name x.hosts) (sym where_to) ∙ find-insert_self name h' net.hosts,
            rw (received_self name n d net was_sent, is, run_a) refl,
            record { same_table = refl; same_config = agrees.same_config; sized = size },
          )
