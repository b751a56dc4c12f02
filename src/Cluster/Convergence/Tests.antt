-- ===== src/Cluster/Convergence/Tests.antt =====
-- Two hosts that hear the same report, which was sent before.
use virtual_time_synchroniza.Prelude.{◌≡◌, refl, Bytes, List, [], ◌∷◌, codes, some, done, All}
use virtual_time_synchroniza.Prelude.Int.{ℤ, pos}
use virtual_time_synchroniza.Floats.Fixed.{fixed, fixed-IsOrdered}
use virtual_time_synchroniza.CLib.{atoi, c_string, print_4ld}
use virtual_time_synchroniza.OrderedMap.{find, insert, compare_bytes}
use virtual_time_synchroniza.TdfTable.{set, max_tdf, max_loop}
use virtual_time_synchroniza.Message.{process_udp_msg, parse_udp_msg, dispatch_udp, udp_set_tdf}
use virtual_time_synchroniza.CpuMonitor.{message}
use virtual_time_synchroniza.UdpAsyncServer.{handle_receive_from, serve}
use virtual_time_synchroniza.UdpAsyncServer.Receive.{IsDeliverable}
use virtual_time_synchroniza.Agent.{Agent}
use virtual_time_synchroniza.UdpAsyncServer.Tests.{at_bars}
use virtual_time_synchroniza.Cluster.{Report, datagrams}
use virtual_time_synchroniza.Cluster.Network.{Host, Network, Event, receive, receive_at, run, step}
use virtual_time_synchroniza.Cluster.Safety.{IsSound}
use virtual_time_synchroniza.Cluster.Safety.Tests.{
  narrow, host, network, network-IsSound, zerg-InBounds,
}
use virtual_time_synchroniza.Cluster.Reports.{IsNear}
use virtual_time_synchroniza.Cluster.Projected.{run-serve}
use virtual_time_synchroniza.Cluster.Convergence.{run-agree}
use virtual_time_synchroniza.Cluster.Projection.{received_by, heard}

abbrev report : Report
report = (codes "zerg", pos 3000)

abbrev informed : Network
informed = record network { sent = message (codes "zerg") (pos 3000) ∷ [] }

informed-IsSound : IsSound narrow at_bars (λ k. 2) informed
informed-IsSound = record {
  all_hosts = network-IsSound.all_hosts;
  all_sent =
      ((codes "zerg", pos 3000, refl, (refl, refl), zerg-InBounds (pos 3000) (refl, refl)), tt);
}

abbrev events : List Event
events = receive (codes "terran") 0 ∷ receive (codes "zerg") 0 ∷ []

terran_heard : heard at_bars (codes "terran") events informed ≡ datagrams (report ∷ [])
unfolding heard received_by step receive_at find insert compare_bytes handle_receive_from
    process_udp_msg parse_udp_msg dispatch_udp udp_set_tdf atoi c_string message print_4ld set
    max_tdf max_loop
terran_heard = refl

zerg_heard : heard at_bars (codes "zerg") events informed ≡ datagrams (report ∷ [])
unfolding heard received_by step receive_at find insert compare_bytes handle_receive_from
    process_udp_msg parse_udp_msg dispatch_udp udp_set_tdf atoi c_string message print_4ld set
    max_tdf max_loop
zerg_heard = refl

terran_there : find (codes "terran") informed.hosts ≡ some host
unfolding find insert compare_bytes
terran_there = refl

zerg_there : find (codes "zerg") informed.hosts ≡ some host
unfolding find insert compare_bytes
zerg_there = refl

deliverable : All (λ p. IsDeliverable at_bars p.0 p.1) (report ∷ [])
deliverable = (zerg-InBounds (pos 3000) (refl, refl), tt)

run-serve_example :
    (net' : Network) × (h' : Host) × (buffer' : Bytes) × (a' : Agent) × (run at_bars events informed
      ≡ done net')
    × (find (codes "terran") net'.hosts ≡ some h')
    × (serve at_bars (heard at_bars (codes "terran") events informed) host.buffer host.agent
        ≡ done (buffer', a'))
    × (a'.tdf_table ≡ h'.agent.tdf_table)
run-serve_example =
    run-serve narrow at_bars (λ k. 2) fixed-IsOrdered refl events (codes "terran") informed host
      informed-IsSound (tt, (tt, tt)) terran_there

run-agree_example :
    (net' : Network) × (g' : Host) × (h' : Host) × (m : ℤ) × (run at_bars events informed
      ≡ done net')
    × (find (codes "terran") net'.hosts ≡ some g')
    × (find (codes "zerg") net'.hosts ≡ some h')
    × (g'.agent.tdf_table.tdf_map ≡ h'.agent.tdf_table.tdf_map)
    × (max_tdf g'.agent.tdf_table.tdf_map ≡ done m)
    × IsNear narrow m g'.agent.tdf_table.latest_tdf
    × IsNear narrow m h'.agent.tdf_table.latest_tdf
run-agree_example =
    run-agree narrow at_bars (λ k. 2) fixed-IsOrdered refl events informed (codes "terran")
      (codes "zerg") host host report report [] [] informed-IsSound (tt, (tt, tt)) terran_there
      zerg_there (refl, refl) (record { reports = terran_heard; deliverable = deliverable })
      (record { reports = zerg_heard; deliverable = deliverable }) (λ k. refl) (λ i e. refl)
