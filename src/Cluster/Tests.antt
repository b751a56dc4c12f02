-- ===== src/Cluster/Tests.antt =====
-- The theorems on the agents together at concrete reports.
use virtual_time_synchroniza.Prelude.{
  none, zero, suc, sym, ap, ◌∙◌, inr, none, some_injective, ◌/◌, ◌<◌, ◌≤◌, inl, some, ltb, ℕ, ◌≡◌,
  ◌≢◌, refl, Bool, Bool-cases, ◌&&◌, not, ◌++◌, true, Bytes, List, [], ◌∷◌, done, codes, arith, All,
  length, ◌==◌, if◌then◌else◌,
}
use virtual_time_synchroniza.Prelude.Int.{ℤ, pos, negsuc}
use virtual_time_synchroniza.Floats.Fixed.{fixed, fixed-IsOrdered}
use virtual_time_synchroniza.Configuration.{defaults}
use virtual_time_synchroniza.OrderedMap.{find}
use virtual_time_synchroniza.OrderedMap.Order.{eq_of_compare}
use virtual_time_synchroniza.TdfTable.{TdfTable, max_tdf}
use virtual_time_synchroniza.Agent.{Agent, IsValid}
use virtual_time_synchroniza.Message.Tests.{agent, agent-IsValid}
use virtual_time_synchroniza.CLib.{print_4ld}
use virtual_time_synchroniza.CpuMonitor.{message}
use virtual_time_synchroniza.UdpAsyncServer.{serve}
use virtual_time_synchroniza.UdpAsyncServer.Receive.{IsDeliverable}
use virtual_time_synchroniza.UdpAsyncServer.Tests.{fill, length-fill, at_bars, clean_lem}
use virtual_time_synchroniza.Cluster.{Report, datagrams, last_report, set_all, value}
use virtual_time_synchroniza.Cluster.Reports.{IsNear}
use virtual_time_synchroniza.Cluster.Agreement.{SameLast, serve-agree}
use virtual_time_synchroniza.Cluster.News.{told, told-set_all}
use virtual_time_synchroniza.Cluster.Orders.{unheard, set_all_orders}

abbrev zerg : ℕ → Report
zerg n = (codes "zerg", pos n)

abbrev terran : ℕ → Report
terran n = (codes "terran", pos n)

zerg_30 : IsDeliverable at_bars (codes "zerg") (pos 30_000)
unfolding message virtual_time_synchroniza.CLib.print_4ld
zerg_30 = record {
  cut = refl;
  clean = clean_lem 0 (message (codes "zerg") (pos 30_000)) refl;
  short = omega arith;
}

zerg_21 : IsDeliverable at_bars (codes "zerg") (pos 21_000)
unfolding message virtual_time_synchroniza.CLib.print_4ld
zerg_21 = record {
  cut = refl;
  clean = clean_lem 0 (message (codes "zerg") (pos 21_000)) refl;
  short = omega arith;
}

terran_20 : IsDeliverable at_bars (codes "terran") (pos 20_000)
unfolding message virtual_time_synchroniza.CLib.print_4ld
terran_20 = record {
  cut = refl;
  clean = clean_lem 0 (message (codes "terran") (pos 20_000)) refl;
  short = omega arith;
}

-- The second agent misses the first report of one host, hears its last one before the other host's, and
-- that one twice.
abbrev first_heard : List Report
first_heard = terran 20_000 ∷ zerg 21_000 ∷ []

abbrev then_heard : List Report
then_heard = terran 20_000 ∷ terran 20_000 ∷ []

names_differ : (host : Bytes) → host ≡ codes "zerg" → host ≡ codes "terran" → ⊥
names_differ host z t = absurd cc

heard-SameLast : SameLast (zerg 30_000 ∷ first_heard) (zerg 21_000 ∷ then_heard)
unfolding last_report
heard-SameLast host = ground (
  arith,
  eq_of_compare host (codes "zerg"),
  eq_of_compare host (codes "terran"),
  names_differ host,
)

-- The second agent has heard nothing before.
abbrev newcomer : Agent
newcomer = record agent { tdf_table = unheard (pos 1000) }

newcomer-IsValid : IsValid newcomer
newcomer-IsValid = record {
  tdf_valid = record { sorted = tt; no_null = tt };
  iface_valid = agent-IsValid.iface_valid;
  semaphores_all = agent-IsValid.semaphores_all;
}

all_reported :
    (k : Bytes)
    → last_report k (zerg 30_000 ∷ first_heard) ≡ none
    → find k agent.tdf_table.tdf_map ≡ find k newcomer.tdf_table.tdf_map
unfolding last_report find
all_reported k h = ground arith

heard_agree :
    (x' : Bytes) × (y' : Bytes) × (a' : Agent) × (b' : Agent) × (m : ℤ) × (serve at_bars
        (datagrams (zerg 30_000 ∷ first_heard))
        (fill 1024)
        agent
      ≡ done (x', a'))
    × (serve at_bars (datagrams (zerg 21_000 ∷ then_heard)) (fill 1024) newcomer ≡ done (y', b'))
    × (a'.tdf_table.tdf_map ≡ b'.tdf_table.tdf_map)
    × (max_tdf a'.tdf_table.tdf_map ≡ done m)
    × IsNear agent.config m a'.tdf_table.latest_tdf
    × IsNear newcomer.config m b'.tdf_table.latest_tdf
heard_agree =
    serve-agree fixed-IsOrdered at_bars (zerg 30_000) (zerg 21_000) first_heard then_heard
      (fill 1024) (fill 1024) agent newcomer (zerg_30, (terran_20, (zerg_21, tt)))
      (zerg_21, (terran_20, (terran_20, tt))) heard-SameLast (length-fill 1024, length-fill 1024)
      (agent-IsValid, newcomer-IsValid) (refl, refl) all_reported

set_all_orders_example :
    (t : TdfTable) × (t' : TdfTable) × (set_all defaults
        (unheard (pos 1000))
        (terran 20_000 ∷ zerg 21_000 ∷ [])
      ≡ done t)
    × (set_all defaults (unheard (pos 1000)) (zerg 21_000 ∷ terran 20_000 ∷ []) ≡ done t')
    × (t.tdf_map ≡ t'.tdf_map)
    × (t.latest_tdf ≡ value (pos 20_000))
    × (t'.latest_tdf ≡ value (pos 21_000))
unfolding virtual_time_synchroniza.TdfTable.relative_change virtual_time_synchroniza.CLib.print_4ld
    virtual_time_synchroniza.CLib.atoll virtual_time_synchroniza.Floats.Fixed.quotient
    virtual_time_synchroniza.Prelude.Int.◌-ℤ◌
set_all_orders_example =
    set_all_orders fixed-IsOrdered defaults (pos 1000) (terran 20_000) (zerg 21_000) (λ e. cc) refl
      refl refl refl

ℤ_set : IsSet ℤ
ℤ_set = hlevel

told-set_all_example :
    (t : TdfTable) × (t' : TdfTable) × (set_all defaults
        (unheard (pos 1000))
        (zerg 30_000 ∷ first_heard)
      ≡ done t)
    × (set_all defaults (unheard (pos 2000)) (zerg 21_000 ∷ then_heard) ≡ done t')
    × (told (zerg 30_000 ∷ first_heard) ≡ told (zerg 21_000 ∷ then_heard) → t.tdf_map ≡ t'.tdf_map)
    × (t.tdf_map ≡ t'.tdf_map → told (zerg 30_000 ∷ first_heard) ≡ told (zerg 21_000 ∷ then_heard))
told-set_all_example =
    told-set_all fixed-IsOrdered ℤ_set defaults defaults (pos 1000) (pos 2000)
      (zerg 30_000 ∷ first_heard) (zerg 21_000 ∷ then_heard)
