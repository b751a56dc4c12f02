-- ===== src/TdfTable/Tests.antt =====
-- Runs of the TDF table, and the theorems on it at concrete tables.
use virtual_time_synchroniza.Prelude.{
  ℕ, ◌≡◌, refl, true, Bytes, [], ◌∷◌, Option, none, some, done, codes, ◌≢◌,
}
use virtual_time_synchroniza.Prelude.Int.{pos}
use virtual_time_synchroniza.Floats.Fixed.{fixed, fixed-IsOrdered}
use virtual_time_synchroniza.Configuration.{defaults}
use virtual_time_synchroniza.OrderedMap.{find, compare_bytes}
use virtual_time_synchroniza.TdfTable.{TdfTable, TdfEntry, max_loop, max_tdf, set}
use virtual_time_synchroniza.TdfTable.Update.{IsValid, Adopts, set_lem}

abbrev pub entry : ℕ → Option TdfEntry
entry n = some (record { base_tdf = pos n })

abbrev pub two_hosts : TdfTable
two_hosts = record {
  tdf_map = (codes "terran", entry 3000) ∷ (codes "zerg", entry 5000) ∷ [];
  is_enabled = true;
  latest_tdf = pos 5000;
  notifications = 4;
}

pub two_hosts-IsValid : IsValid two_hosts
unfolding compare_bytes
two_hosts-IsValid = record { sorted = ((refl, tt), (tt, tt)); no_null = (tt, (tt, tt)) }

max_run : max_tdf two_hosts.tdf_map ≡ done (pos 5000)
unfolding max_tdf max_loop
max_run = refl

set_lem_example :
    (t' : TdfTable) × (set defaults two_hosts (codes "terran") (pos 7000) ≡ done t')
    × IsValid t'
    × (find (codes "terran") t'.tdf_map ≡ some (entry 7000))
    × ((j : Bytes) → j ≢ codes "terran" → find j t'.tdf_map ≡ find j two_hosts.tdf_map)
    × (t'.is_enabled ≡ true)
    × Adopts defaults two_hosts t'
set_lem_example =
    set_lem fixed-IsOrdered defaults two_hosts (codes "terran") (pos 7000) two_hosts-IsValid

missing_host : find (codes "protoss") two_hosts.tdf_map ≡ none
unfolding find compare_bytes
missing_host = refl
