-- ===== src/VirtualTime.antt =====
-- virtualagent/VirtualTime.{hpp,cpp}: the thread that starts the virtual clocks and, each time the TDF
-- table notifies it, stops the hosts, sets the TDF and the rates of the interfaces, and lets the hosts
-- go on. It holds the mutex of the TDF table all the while, so that nobody changes that table; the
-- settings and the semaphores have no lock, so the round is cut where the settings are read for the
-- second time. What the host's clocks show at each call is an argument; the logger is left out.
pub mod Start
pub mod Adjust
pub mod Forced
pub mod Race
pub mod Wake
pub mod Tests
use virtual_time_synchroniza.Prelude.{Bool, Outcome, done, ◌>>=◌, not, if◌then◌else◌}
use virtual_time_synchroniza.Floats.{Floats}
use virtual_time_synchroniza.Configuration.{Configuration}
use virtual_time_synchroniza.Timer.{HostTime, set_tdf}
use virtual_time_synchroniza.Tc.{update_interface_attribute}
use virtual_time_synchroniza.Semaphore.{sem_go, sem_stop}
use virtual_time_synchroniza.Agent.{Agent, execute, set_hosts, stop_time, start_time}
use virtual_time_synchroniza.Message.Tcp.{is_number}

module _ ⦃fl : Floats⦄ where
  abbrev pub suspends : Configuration → Bool
  suspends cfg = not (is_number cfg.is_vm_suspensions_enabled 0)

  -- `init_get_clock`: the monotonic clock is used where it works.
  unfoldable pub init_get_clock : Bool → Agent → Agent
  init_get_clock monotonic_works a = record a { use_rt_clock = monotonic_works }

  -- `VirtualTime::start` in front of its loop.
  unfoldable pub start : Bool → HostTime → Agent → Outcome Agent
  unfolding init_get_clock
  start monotonic_works h a = set_hosts sem_go (start_time h (init_get_clock monotonic_works a))

  -- The first half of a round: the hosts are stopped, where the settings say so.
  unfoldable pub hold : HostTime → Agent → Outcome Agent
  hold h a =
      let stopped = stop_time h a in
      if suspends a.config then set_hosts sem_stop stopped else done stopped

  -- `sharedMemory.setTdf` with the TDF in force, and `updateInterfaceAttribute`.
  unfoldable pub apply_tdf : Agent → Outcome Agent
  apply_tdf a =
      let new_tdf = a.tdf_table.latest_tdf in
      update_interface_attribute new_tdf a.iface_table >>= λ r.
      done (execute r.1 (record a { shared = set_tdf new_tdf a.shared; iface_table = r.0 }))

  -- The rest of a round: the clocks and the hosts go on.
  unfoldable pub release : HostTime → Agent → Outcome Agent
  release h a =
      let started = start_time h a in
      if suspends a.config then set_hosts sem_go started else done started

  -- One round of the loop of `startAdaptiveVirtualTime`, after the wait, where the settings are not
  -- changed meanwhile.
  unfoldable pub adjust : HostTime → HostTime → Agent → Outcome Agent
  adjust stop begin a = hold stop a >>= λ held. apply_tdf held >>= λ set. release begin set
