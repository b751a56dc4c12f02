-- ===== src/Cluster/Bounds.antt =====
-- The TDFs of a network in numbers: where printing and reading keep the bounds of the settings.
use virtual_time_synchroniza.Prelude.{
  ℕ, ◌≡◌, inl, inr, false, Bytes, List, [], ◌∷◌, none, some, done, All,
}
use virtual_time_synchroniza.Floats.{Floats, IsOrdered}
use virtual_time_synchroniza.Configuration.{Configuration}
use virtual_time_synchroniza.OrderedMap.{find}
use virtual_time_synchroniza.TdfTable.{TdfMap}
use virtual_time_synchroniza.TdfTable.Max.{Holds}
use virtual_time_synchroniza.CpuMonitor.Required.{InBounds}
use virtual_time_synchroniza.Cluster.{value}
use virtual_time_synchroniza.Cluster.Network.{Host, Network, Event, run}
use virtual_time_synchroniza.Cluster.Safety.{IsAsked, IsSound, Fits, run-IsSound}

module _ ⦃fl : Floats⦄ where
  open fl use {LongDouble, l}

  Holds-map :
      (P Q : LongDouble → Type 0) (m : TdfMap)
      → ((x : LongDouble) → P x → Q x)
      → All (Holds P) m
      → All (Holds Q) m
  Holds-map P Q [] f h = tt
  Holds-map P Q ((k, none) ∷ m) f h = absurd h.0
  Holds-map P Q ((k, some e) ∷ m) f h = (f e.base_tdf h.0, Holds-map P Q m f h.1)

  module _ (cfg : Configuration) (split : Bytes → List Bytes) (processors : Bytes → ℕ) where
    -- All TDFs of a host lie within the bounds.
    pub record IsBounded (h : Host) : Type 0 where
      pub in_memory : InBounds cfg h.agent.shared.tdf
      pub in_force : InBounds cfg h.agent.tdf_table.latest_tdf
      pub entries : All (Holds (InBounds cfg)) h.agent.tdf_table.tdf_map

    -- Every run of a sound network goes through, and on every host the TDF by which the virtual clock goes, the
    -- one in force and all entries of the table stay neither below the least nor above the greatest
    -- TDF of the settings. The TDF 1, with which tables and shared memories start, must lie between
    -- them, and a TDF between them must do so still after it was printed and read.
    pub run-IsBounded :
        (laws : IsOrdered l) (sound : l.lt cfg.tdf_max cfg.tdf_min ≡ false)
        → InBounds cfg (l.lit 10 1)
        → ((tdf : LongDouble) → InBounds cfg tdf → InBounds cfg (value tdf))
        → (es : List Event) (net : Network) → IsSound cfg split processors net
        → All (Fits cfg split processors) es
        → (net' : Network) × (run split es net ≡ done net')
          × ((name : Bytes) (h : Host) → find name net'.hosts ≡ some h → IsBounded h)
    run-IsBounded laws sound one keeps es net ok fits =
        let (net', goes, ok') = run-IsSound cfg split processors laws sound es net ok fits in
        (
          net',
          goes,
          λ name h found.
              let hs = ok'.all_hosts name h found in
              record {
                in_memory = bounded _ hs.in_memory;
                in_force = bounded _ hs.in_force;
                entries =
                    Holds-map (IsAsked cfg split processors) (InBounds cfg) _ bounded hs.entries;
              },
        )
      where
        bounded : (x : LongDouble) → IsAsked cfg split processors x → InBounds cfg x
        bounded x (inl at) = rw at one
        bounded x (inr (tdf, at, within)) = rw at (keeps tdf within)
