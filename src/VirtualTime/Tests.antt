-- ===== src/VirtualTime/Tests.antt =====
-- The theorems on the rounds of the virtual time thread at a concrete agent.
use virtual_time_synchroniza.VirtualTime.Forced.{adjust-enforce}
use virtual_time_synchroniza.Message.Forced.{process_all}
use virtual_time_synchroniza.Message.Tcp.{enforce}
use virtual_time_synchroniza.Prelude.{
  List, Bytes, ◌≢◌, ◌≡◌, refl, [], ◌∷◌, done, ◌>>=◌, codes, arith,
}
use virtual_time_synchroniza.Prelude.{true, false}
use virtual_time_synchroniza.Prelude.Int.{pos, ◌*ℤ◌, ◌+ℤ◌, ◌-ℤ◌}
use virtual_time_synchroniza.Floats.Fixed.{fixed, fixed-IsOrdered, fixed-IsExact, quotient}
use virtual_time_synchroniza.Timer.{cpu_get_clock_copy, virtual_now, get_clock}
use virtual_time_synchroniza.Timer.Tests.{at, running}
use virtual_time_synchroniza.Timer
use virtual_time_synchroniza.Tc.Tests.{two_interfaces-IsValid}
use virtual_time_synchroniza.Semaphore.{semaphore_waitforzero, vir_host, blocked, passed}
use virtual_time_synchroniza.Agent.{Agent, IsValid}
use virtual_time_synchroniza.Message.Tcp.{set_suspensions}
use virtual_time_synchroniza.Message.Tests.{agent, agent-IsValid}
use virtual_time_synchroniza.VirtualTime.{start, suspends, hold, apply_tdf, release, adjust}
use virtual_time_synchroniza.VirtualTime.Adjust.{IsAdjusted, adjust_lem}
use virtual_time_synchroniza.VirtualTime.Wake.{
  Thread, outside, waiting, waits, Steps, step, still, Synchronized, waiting-Synchronized,
  enforced_missed,
}
use virtual_time_synchroniza.VirtualTime.Start.{start_lem}
use virtual_time_synchroniza.Message.Suspend.{shows}
use virtual_time_synchroniza.VirtualTime.Race.{release-set_suspensions_held}

adjust_lem_example :
    (a' : Agent) × (adjust (at 200) (at 300) agent ≡ done a')
    × IsAdjusted (at 200) (at 300) agent a'
unfolding cpu_get_clock_copy virtual_now get_clock ◌*ℤ◌ ◌+ℤ◌ ◌-ℤ◌ quotient
adjust_lem_example =
    adjust_lem fixed-IsExact (at 200) (at 300) agent agent-IsValid refl refl (omega arith)
      (omega arith) (omega arith)

release-set_suspensions_held_example :
    (a' : Agent) × ((hold (at 200) agent >>= λ held. apply_tdf held >>= λ s.
    set_suspensions (pos 0) (codes "25" ∷ []) s >>= λ off. release (at 300) off)
      ≡ done a')
    × (semaphore_waitforzero a'.semaphores vir_host ≡ done blocked)
    × (suspends a'.config ≡ false)
release-set_suspensions_held_example =
    release-set_suspensions_held (at 200) (at 300) (codes "25") agent two_interfaces-IsValid
      (omega arith) refl

abbrev at_rest : Agent
at_rest = record agent { tdf_table = record (agent.tdf_table) { latest_tdf = pos 2000 } }

at_rest-IsValid : IsValid at_rest
at_rest-IsValid = record {
  tdf_valid = record {
    sorted = agent-IsValid.tdf_valid.sorted;
    no_null = agent-IsValid.tdf_valid.no_null;
  };
  iface_valid = two_interfaces-IsValid;
  semaphores_all = refl;
}

abbrev first_wait : Thread
first_wait = record { phase = waiting; missed = false; agent = at_rest }

waiting-Synchronized_example : IsValid at_rest × Synchronized at_rest
waiting-Synchronized_example =
    waiting-Synchronized fixed-IsOrdered at_rest first_wait at_rest-IsValid refl
      (step (waits (record { phase = outside; missed = false; agent = at_rest }) refl)
        (still first_wait))
      refl refl

enforced_missed_example :
    (th : Thread) × Steps (record { phase = outside; missed = false; agent = agent }) th
    × (th.phase ≡ waiting)
    × (th.missed ≡ true)
    × (th.agent.tdf_table.latest_tdf ≡ pos 4000)
    × (th.agent.shared ≡ agent.shared)
enforced_missed_example = enforced_missed agent (pos 4000)

abbrev created : Agent
created = record agent { shared = Timer.create running.timers (at 0) }

start_lem_example :
    (a' : Agent) × (start true (at 50) created ≡ done a')
    × (a'.shared.timers.cpu_ticks_enabled ≡ true)
    × (a'.shared.tdf ≡ pos 1000)
    × (shows a' (at 50) ≡ get_clock false (at 0))
    × (semaphore_waitforzero a'.semaphores vir_host ≡ done (passed a'.semaphores))
unfolding get_clock ◌*ℤ◌ ◌+ℤ◌ ◌-ℤ◌
start_lem_example =
    start_lem fixed-IsExact true running.timers (at 0) (at 50) created refl (omega arith) refl
      (omega arith) (omega arith) (omega arith)

abbrev report_of_zerg : Bytes → List Bytes
report_of_zerg m = codes "0010" ∷ codes "zerg" ∷ codes "9" ∷ []

a_report : (m : Bytes) → report_of_zerg m ≢ []
a_report m = λ e. cc

adjust-enforce_example :
    (a1 a2 a3 : Agent) × (enforce (codes "11" ∷ codes "3" ∷ []) agent ≡ done a1)
    × (process_all report_of_zerg ([] ∷ [] ∷ []) a1 ≡ done a2)
    × (adjust (at 200) (at 300) a2 ≡ done a3)
    × IsValid a3
    × (a3.shared.tdf ≡ fixed.widen (fixed.atof (codes "3")))
adjust-enforce_example =
    adjust-enforce report_of_zerg fixed-IsOrdered (codes "11") (codes "3") ([] ∷ [] ∷ []) (at 200)
      (at 300) agent a_report agent-IsValid
