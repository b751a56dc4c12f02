-- ===== src/Cluster/Network.antt =====
-- The hosts and the datagrams between them: a host's monitor makes a round and broadcasts, and a datagram
-- that was sent arrives somewhere, at any later time, any number of times or never. Hosts are told
-- apart by their names. In between a host's virtual time
-- thread makes its rounds. No controller's command comes.
use virtual_time_synchroniza.Prelude.{
  ℕ, zero, suc, false, Bytes, List, [], ◌∷◌, Option, none, some, Outcome, done, ◌>>=◌,
}
use virtual_time_synchroniza.Floats.{Floats}
use virtual_time_synchroniza.Timer.{SimulatorsState, HostTime}
use virtual_time_synchroniza.OrderedMap.{OrderedMap, find, insert}
use virtual_time_synchroniza.Agent.{Agent}
use virtual_time_synchroniza.CpuMonitor.{Cpu, CpuMonitor, monitor}
use virtual_time_synchroniza.VirtualTime.{adjust}
use virtual_time_synchroniza.UdpAsyncServer.{handle_receive_from}

-- The n-th datagram from the newest on.
abbrev pub nth : List Bytes → ℕ → Option Bytes
nth [] n = none
nth (d ∷ ds) zero = some d
nth (d ∷ ds) (suc n) = nth ds n

module _ ⦃fl : Floats⦄ where
  pub record Host : Type 0 where
    pub agent : Agent
    pub buffer : Bytes
    pub cpu_monitor : CpuMonitor

  pub record Network : Type 0 where
    pub hosts : OrderedMap Host
    pub sent : List Bytes

  pub data Event : Type 0 where
    -- A round of a host's monitor, with what it reads.
    round : Bytes → Cpu → SimulatorsState → ℕ → Event
    -- A host receives a datagram, by its place.
    receive : Bytes → ℕ → Event
    -- A round of a host's virtual time thread, with what the clocks show at its stop and its start.
    adjusts : Bytes → HostTime → HostTime → Event

  -- The newest datagram stands first.
  abbrev pub broadcast : Option Bytes → List Bytes → List Bytes
  broadcast none sent = sent
  broadcast (some d) sent = d ∷ sent

  unfoldable pub round_at : Bytes → Cpu → SimulatorsState → ℕ → Network → Host → Outcome Network
  round_at name cpu sim now net h = monitor h.agent.config name cpu sim now h.cpu_monitor >>= λ r.
      done (record {
        hosts = insert name (record h { cpu_monitor = r.0 }) net.hosts;
        sent = broadcast r.1 net.sent;
      })

  unfoldable pub adjust_at : Bytes → HostTime → HostTime → Network → Host → Outcome Network
  adjust_at name stop begin net h = adjust stop begin h.agent >>= λ a.
      done (record net { hosts = insert name (record h { agent = a }) net.hosts })

  module _ (split : Bytes → List Bytes) where
    unfoldable pub receive_at : Bytes → Bytes → Network → Host → Outcome Network
    receive_at name datagram net h =
        handle_receive_from split false datagram h.buffer h.agent >>= λ r.
        done (record net { hosts = insert name (record h { buffer = r.0; agent = r.1 }) net.hosts })

    -- An event at a host that does not exist, or of a datagram that was never sent, is none.
    unfoldable pub step : Event → Network → Outcome Network
    unfolding round_at receive_at adjust_at
    step (round name cpu sim now) net = elim (find name net.hosts) [
      | some h ↦ round_at name cpu sim now net h
      | none ↦ done net
    ]
    step (receive name n) net = elim (find name net.hosts) [
      | none ↦ done net
      | some h ↦ elim (nth net.sent n) [ some d ↦ receive_at name d net h | none ↦ done net ]
    ]
    step (adjusts name stop begin) net = elim (find name net.hosts) [
      | some h ↦ adjust_at name stop begin net h
      | none ↦ done net
    ]

    unfoldable pub run : List Event → Network → Outcome Network
    run [] net = done net
    run (e ∷ es) net = step e net >>= λ net'. run es net'
