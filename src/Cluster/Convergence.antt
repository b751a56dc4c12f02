-- ===== src/Cluster/Convergence.antt =====
-- Two hosts of one network that heard the same.
mod Tests
use virtual_time_synchroniza.Prelude.{
  ℕ, ◌≡◌, refl, sym, ap, ◌∙◌, true, false, Bytes, List, ◌∷◌, none, some, done, done_injective, All,
}
use virtual_time_synchroniza.Floats.{Floats, IsOrdered}
use virtual_time_synchroniza.Configuration.{Configuration}
use virtual_time_synchroniza.OrderedMap.{find}
use virtual_time_synchroniza.TdfTable.{max_tdf}
use virtual_time_synchroniza.Agent.{Agent}
use virtual_time_synchroniza.UdpAsyncServer.{serve}
use virtual_time_synchroniza.UdpAsyncServer.Receive.{IsDeliverable}
use virtual_time_synchroniza.Cluster.{Report, datagrams, last_report}
use virtual_time_synchroniza.Cluster.Reports.{IsNear}
use virtual_time_synchroniza.Cluster.Agreement.{SameLast, serve-agree}
use virtual_time_synchroniza.Cluster.Network.{Host, Network, Event, run}
use virtual_time_synchroniza.Cluster.Safety.{IsSound, Fits}
use virtual_time_synchroniza.Cluster.Projection.{heard}
use virtual_time_synchroniza.Cluster.Projected.{run-serve}

module _ ⦃fl : Floats⦄ where
  open fl use {LongDouble, l}

  module _ (cfg : Configuration) (split : Bytes → List Bytes) (processors : Bytes → ℕ)
      (laws : IsOrdered l) (sound : l.lt cfg.tdf_max cfg.tdf_min ≡ false) where
    -- The reports that a host heard in a run, of which there is one at least, and which can be delivered.
    pub record Heard (name : Bytes) (es : List Event) (net : Network) (r : Report)
        (rs : List Report) : Type 0 where
      pub reports : heard split name es net ≡ datagrams (r ∷ rs)
      pub deliverable : All (λ p. IsDeliverable split p.0 p.1) (r ∷ rs)

    -- A run of a sound network in which two hosts, whose tables are enabled, hear the same last report of
    -- every host: it goes through, the two tables hold the same in the end, and the TDF that each of
    -- the two has in force is the common maximum, or nearer to it than the threshold. A host of
    -- which they hear nothing has the same entry in both tables at the start.
    pub run-agree :
        (es : List Event) (net : Network) (j k : Bytes) (g h : Host) (r q : Report)
        (rs qs : List Report)
        → IsSound cfg split processors net
        → All (Fits cfg split processors) es
        → find j net.hosts ≡ some g
        → find k net.hosts ≡ some h
        → (g.agent.tdf_table.is_enabled ≡ true) × (h.agent.tdf_table.is_enabled ≡ true)
        → Heard j es net r rs
        → Heard k es net q qs
        → SameLast (r ∷ rs) (q ∷ qs)
        → ((i : Bytes)
            → last_report i (r ∷ rs) ≡ none
            → find i g.agent.tdf_table.tdf_map ≡ find i h.agent.tdf_table.tdf_map)
        → (net' : Network) × (g' : Host) × (h' : Host) × (m : LongDouble) × (run split es net
            ≡ done net')
          × (find j net'.hosts ≡ some g')
          × (find k net'.hosts ≡ some h')
          × (g'.agent.tdf_table.tdf_map ≡ h'.agent.tdf_table.tdf_map)
          × (max_tdf g'.agent.tdf_table.tdf_map ≡ done m)
          × IsNear cfg m g'.agent.tdf_table.latest_tdf
          × IsNear cfg m h'.agent.tdf_table.latest_tdf
    run-agree es net j k g h r q rs qs ok fits at_j at_k on by_j by_k same start =
        let g_ok = ok.all_hosts j g at_j in
        let h_ok = ok.all_hosts k h at_k in
        let (n1, g', b1, a1, run1, here1, served1, table1) =
          run-serve cfg split processors laws sound es j net g ok fits at_j in
        let (n2, h', b2, a2, run2, here2, served2, table2) =
          run-serve cfg split processors laws sound es k net h ok fits at_k in
        let (x, y, a, b, m, serve_a, serve_b, maps, greatest, near_a, near_b) =
          serve-agree laws split r q rs qs g.buffer h.buffer g.agent h.agent by_j.deliverable
            by_k.deliverable same (g_ok.sized, h_ok.sized) (g_ok.valid, h_ok.valid) on start in
        let one_net : n2 ≡ n1 = done_injective n2 n1 (sym run2 ∙ run1) in
        let first : a.tdf_table ≡ g'.agent.tdf_table =
          ap (λ p. p.1.tdf_table)
            (done_injective (x, a) (b1, a1) (sym serve_a ∙ rw (← by_j.reports) served1))
          ∙ table1 in
        let second : b.tdf_table ≡ h'.agent.tdf_table =
          ap (λ p. p.1.tdf_table)
            (done_injective (y, b) (b2, a2) (sym serve_b ∙ rw (← by_k.reports) served2))
          ∙ table2 in
        (
          n1,
          g',
          h',
          m,
          run1,
          here1,
          rw (← one_net) here2,
          rw (← first, ← second) maps,
          rw (← first) greatest,
          rw (← first, ← g_ok.configured) near_a,
          rw (← second, ← h_ok.configured) near_b,
        )
