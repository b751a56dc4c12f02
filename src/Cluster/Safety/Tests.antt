-- ===== src/Cluster/Safety/Tests.antt =====
-- A run of a network of two hosts.
use virtual_time_synchroniza.Prelude.{
  zero, suc, sym, ap, ◌∙◌, inr, none, some_injective, ◌/◌, ◌<◌, ◌≤◌, inl, some, ltb, ℕ, ◌≡◌, ◌≢◌,
  refl, ◌++◌, true, Bytes, List, [], ◌∷◌, done, codes, arith, length,
}
use virtual_time_synchroniza.Prelude.Int.{ℤ, pos, negsuc}
use virtual_time_synchroniza.Floats.Fixed.{fixed, thousandths, fixed-IsOrdered}
use virtual_time_synchroniza.Configuration.{Configuration, defaults}
use virtual_time_synchroniza.OrderedMap.{compare_bytes, insert, find}
use virtual_time_synchroniza.OrderedMap.Order.{same_or_not}
use virtual_time_synchroniza.OrderedMap.Laws.{find-insert_ne}
use virtual_time_synchroniza.Timer.Tests.{at, running}
use virtual_time_synchroniza.Agent.{Agent}
use virtual_time_synchroniza.Message.Tests.{agent, agent-IsValid}
use virtual_time_synchroniza.CLib.{atoll, print_4ld}
use virtual_time_synchroniza.CpuMonitor.{message, create}
use virtual_time_synchroniza.CpuMonitor.Required.{InBounds}
use virtual_time_synchroniza.CpuMonitor.Tests.{cpu_then, cpu_now}
use virtual_time_synchroniza.Cluster.Network.{Host, Network, Event, round, receive, adjusts, run}
use virtual_time_synchroniza.Cluster.{value}
use virtual_time_synchroniza.Cluster.Bounds.{IsBounded, run-IsBounded}
use virtual_time_synchroniza.Cluster.Safety.{HostIsSound, IsSound, run-IsSound}
use virtual_time_synchroniza.UdpAsyncServer.Receive.{IsDeliverable}
use virtual_time_synchroniza.UdpAsyncServer.Tests.{fill, length-fill, at_bars, has_no, clean_lem}
use virtual_time_synchroniza.Cluster.Orders.{unheard}

-- A network of two hosts, whose TDFs lie between 1 and 3.
abbrev pub narrow : Configuration
narrow = record defaults { tdf_max = pos 3000 }

abbrev pub host_agent : Agent
host_agent = record agent {
  config = narrow;
  tdf_table = unheard (pos 1000);
  shared = record running { tdf = pos 1000 };
}

abbrev pub host : Host
host = record { agent = host_agent; buffer = fill 1024; cpu_monitor = create narrow cpu_then }

abbrev pub network : Network
network = record { hosts = insert (codes "zerg") host (insert (codes "terran") host []); sent = [] }

-- What the splitting and the buffer want of a message with a whole TDF.
abbrev Printed : Bytes → ℕ → Type 0
Printed name w =
    let m = codes "0010|" ++ (name ++ (codes "|" ++ print_4ld w)) in
    (at_bars m ≡ codes "0010" ∷ name ∷ print_4ld w ∷ [])
    × (has_no 0 m ≡ true)
    × (ltb (length m) 1024 ≡ true)

printed :
    (name : Bytes) (w : ℕ)
    → Printed name 1 × Printed name 2 × Printed name 3
    → 0 < w
    → w < 4
    → Printed name w
printed name zero all a b = absurd (omega arith)
printed name (suc zero) all a b = all.0
printed name (suc (suc zero)) all a b = all.1
printed name (suc (suc (suc zero))) all a b = all.2
printed name (suc (suc (suc (suc n)))) all a b = absurd (omega arith)

in_bounds :
    (name : Bytes)
    → Printed name 1 × Printed name 2 × Printed name 3
    → (tdf : ℤ) → InBounds narrow tdf
    → IsDeliverable at_bars name tdf
unfolding message
in_bounds name all (negsuc n) bounds = absurd (ground arith)
in_bounds name all (pos n) bounds =
    let least : 1000 ≤ n = ground arith in
    let most : n ≤ 3000 = ground arith in
    let (cut, clean, short) = printed name (n / 1000) all (omega arith) (omega arith) in
    record { cut = cut; clean = clean_lem 0 (message name (pos n)) clean; short = ground arith }

pub zerg-InBounds : (tdf : ℤ) → InBounds narrow tdf → IsDeliverable at_bars (codes "zerg") tdf
unfolding print_4ld
zerg-InBounds =
    in_bounds (codes "zerg") ((refl, refl, refl), (refl, refl, refl), (refl, refl, refl))

terran-InBounds : (tdf : ℤ) → InBounds narrow tdf → IsDeliverable at_bars (codes "terran") tdf
unfolding print_4ld
terran-InBounds =
    in_bounds (codes "terran") ((refl, refl, refl), (refl, refl, refl), (refl, refl, refl))

host_in :
    (name : Bytes)
    → ((tdf : ℤ) → InBounds narrow tdf → IsDeliverable at_bars name tdf)
    → HostIsSound narrow at_bars (λ k. 2) name host
unfolding create
host_in name named = record {
  configured = refl;
  valid = record {
    tdf_valid = record { sorted = tt; no_null = tt };
    iface_valid = agent-IsValid.iface_valid;
    semaphores_all = refl;
  };
  sized = length-fill 1024;
  remembers = record { all_totals = refl; all_idles = refl };
  named = named;
  entries = tt;
  in_force = inl refl;
  in_memory = inl refl;
}

host_at :
    (name k : Bytes) (h : Host)
    → name ≡ k
    → find k network.hosts ≡ some host
    → find name network.hosts ≡ some h
    → HostIsSound narrow at_bars (λ k. 2) k host
    → HostIsSound narrow at_bars (λ k. 2) name h
host_at name k h at here e ok =
    let is = some_injective host h (sym here ∙ ap (λ x. find x network.hosts) (sym at) ∙ e) in
    rw (at, ← is) ok

nobody_else :
    (name : Bytes) → name ≢ codes "zerg" → name ≢ codes "terran" → find name network.hosts ≡ none
unfolding find
nobody_else name ne ne' =
    find-insert_ne (codes "zerg") name host (insert (codes "terran") host []) ne
    ∙ find-insert_ne (codes "terran") name host [] ne'
    ∙ refl

host_by :
    (name : Bytes) (h : Host)
    → find name network.hosts ≡ some h
    → HostIsSound narrow at_bars (λ k. 2) name h
unfolding find insert compare_bytes
host_by name h e = elim (same_or_not name (codes "zerg")) [
  | inl at ↦ host_at name (codes "zerg") h at refl e (host_in (codes "zerg") zerg-InBounds)
  | inr ne ↦ elim (same_or_not name (codes "terran")) [
    | inl at ↦ host_at name (codes "terran") h at refl e (host_in (codes "terran") terran-InBounds)
    | inr ne' ↦ absurd (cc (e, nobody_else name ne ne'))
  ]
]

pub network-IsSound : IsSound narrow at_bars (λ k. 2) network
network-IsSound = record { all_hosts = host_by; all_sent = tt }

-- A round of the one host, whose report both receive, the other twice, and then its own round.
abbrev events : List Event
events =
    round (codes "zerg") cpu_now (record { time = 0; overhead_delay = 0 }) 7
    ∷ receive (codes "terran") 0
    ∷ receive (codes "zerg") 0
    ∷ round (codes "terran") cpu_now (record { time = 0; overhead_delay = 0 }) 9
    ∷ receive (codes "terran") 1
    ∷ adjusts (codes "terran") (at 10) (at 11)
    ∷ []

run-IsSound_example :
    (net' : Network) × (run at_bars events network ≡ done net')
    × IsSound narrow at_bars (λ k. 2) net'
run-IsSound_example =
    run-IsSound narrow at_bars (λ k. 2) fixed-IsOrdered refl events network network-IsSound
      (refl, (tt, (tt, (refl, (tt, (tt, tt))))))

-- Printing and reading drop the fraction, which leaves a TDF between 1 and 3 there.
reads_back : (w : ℕ) → 0 < w → w < 4 → InBounds narrow (thousandths (atoll (print_4ld w)))
unfolding atoll print_4ld
reads_back zero a b = absurd (omega arith)
reads_back (suc zero) a b = (refl, refl)
reads_back (suc (suc zero)) a b = (refl, refl)
reads_back (suc (suc (suc zero))) a b = (refl, refl)
reads_back (suc (suc (suc (suc n)))) a b = absurd (omega arith)

keeps_bounds : (tdf : ℤ) → InBounds narrow tdf → InBounds narrow (value tdf)
keeps_bounds (negsuc n) bounds = absurd (ground arith)
keeps_bounds (pos n) bounds =
    let least : 1000 ≤ n = ground arith in
    let most : n ≤ 3000 = ground arith in reads_back (n / 1000) (omega arith) (omega arith)

run-IsBounded_example :
    (net' : Network) × (run at_bars events network ≡ done net')
    × ((name : Bytes) (h : Host)
        → find name net'.hosts ≡ some h
        → IsBounded narrow at_bars (λ k. 2) h)
run-IsBounded_example =
    run-IsBounded narrow at_bars (λ k. 2) fixed-IsOrdered refl (refl, refl) keeps_bounds events
      network network-IsSound (refl, (tt, (tt, (refl, (tt, (tt, tt))))))
