-- ===== src/Cluster.antt =====
-- The agents of all hosts together: each one's monitor broadcasts the TDF that its host requires
-- (virtualagent/CpuMonitor.cpp, virtualagent/net/UdpSyncClient.cpp), and each one's UDP server puts what
-- arrives into its table (virtualagent/net/UdpAsyncServer.cpp, virtualagent/MemoryDatabase.cpp).
pub mod Reports
pub mod Agreement
pub mod News
pub mod Orders
pub mod Network
pub mod Safety
pub mod Bounds
pub mod Projection
pub mod Projected
pub mod Convergence
mod Tests
use Prim.Native.Nat.{Ordering}
use virtual_time_synchroniza.Prelude.{
  Bytes, List, [], ◌∷◌, map, Option, none, some, Outcome, done, ◌>>=◌,
}
use virtual_time_synchroniza.Floats.{Floats}
use virtual_time_synchroniza.Configuration.{Configuration}
use virtual_time_synchroniza.OrderedMap.{compare_bytes}
use virtual_time_synchroniza.TdfTable.{TdfEntry, TdfTable, set}
use virtual_time_synchroniza.CpuMonitor.{message}

module _ ⦃fl : Floats⦄ where
  open fl use {LongDouble, widen, atof, print}

  -- A host and the TDF that it asks for.
  abbrev pub Report : Type 0
  Report = Bytes × LongDouble

  -- The TDF as the agents that receive it read it.
  abbrev pub value : LongDouble → LongDouble
  value tdf = widen (atof (print tdf))

  -- The datagrams in which the reports go out.
  abbrev pub datagrams : List Report → List Bytes
  datagrams [] = []
  datagrams (r ∷ rs) = message r.0 r.1 ∷ datagrams rs

  -- The table after the reports, one `set` for each.
  unfoldable pub set_all : Configuration → TdfTable → List Report → Outcome TdfTable
  set_all cfg t [] = done t
  set_all cfg t (r ∷ rs) = set cfg t r.0 (value r.1) >>= λ t'. set_all cfg t' rs

  -- What a host reported last, as it is read, if it reported at all.
  unfoldable pub last_report : Bytes → List Report → Option LongDouble
  last_report host [] = none
  last_report host (r ∷ rs) = elim (last_report host rs) [
    | some later ↦ some later
    | none ↦ elim (compare_bytes host r.0) [ Ordering.eq ↦ some (value r.1) | _ ↦ none ]
  ]

  -- The entry of a host, from the one that it had and from what it reported last.
  unfoldable pub entry_after :
      Option LongDouble → Option (Option TdfEntry) → Option (Option TdfEntry)
  entry_after none before = before
  entry_after (some tdf) before = some (some (record { base_tdf = tdf }))
