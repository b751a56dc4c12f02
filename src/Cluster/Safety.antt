-- ===== src/Cluster/Safety.antt =====
-- What no run of the network breaks.
pub mod Tests
use virtual_time_synchroniza.Prelude.{
  ℕ, zero, suc, ◌≡◌, refl, sym, ap, ◌∙◌, Bool-cases, ◌⊎◌, inl, inr, false, Bytes, List, [], ◌∷◌,
  some, done, All, length, some_injective, Option-cases,
}
use virtual_time_synchroniza.Floats.{Floats, IsOrdered}
use virtual_time_synchroniza.Configuration.{Configuration}
use virtual_time_synchroniza.Timer.{SimulatorsState, HostTime}
use virtual_time_synchroniza.OrderedMap.{find, insert}
use virtual_time_synchroniza.OrderedMap.Laws.{find-insert_self, find-insert_ne}
use virtual_time_synchroniza.OrderedMap.Order.{same_or_not}
use virtual_time_synchroniza.TdfTable.Max.{Holds}
use virtual_time_synchroniza.TdfTable.Update.{set_lem}
use virtual_time_synchroniza.TdfTable.Entries.{set-Holds}
use virtual_time_synchroniza.Agent.{IsValid}
use virtual_time_synchroniza.Message.Validity.{with_table-IsValid}
use virtual_time_synchroniza.Message.Tcp.{is_number}
use virtual_time_synchroniza.CpuMonitor.{Cpu, message}
use virtual_time_synchroniza.CpuMonitor.Idle.{Remembers}
use virtual_time_synchroniza.CpuMonitor.Required.{InBounds, monitor-InBounds}
use virtual_time_synchroniza.VirtualTime.Adjust.{adjust_done}
use virtual_time_synchroniza.UdpAsyncServer.{max_length}
use virtual_time_synchroniza.UdpAsyncServer.Receive.{IsDeliverable, handle_receive_from-set}
use virtual_time_synchroniza.Cluster.{value}
use virtual_time_synchroniza.Cluster.Network.{
  Host, Network, Event, round, receive, nth, adjusts, broadcast, round_at, receive_at, adjust_at,
  step, run,
}

pub nth-All :
    (P : Bytes → Type 0) (ds : List Bytes) (n : ℕ) (d : Bytes) → All P ds → nth ds n ≡ some d → P d
nth-All P [] n d h e = absurd cc
nth-All P (c ∷ ds) zero d h e = rw (← some_injective c d e) h.0
nth-All P (c ∷ ds) (suc n) d h e = nth-All P ds n d h.1 e

module _ ⦃fl : Floats⦄ where
  open fl use {LongDouble, l}

  module _ (cfg : Configuration) (split : Bytes → List Bytes) (processors : Bytes → ℕ) where
    -- The TDF that a table starts with, or one within the bounds as the agents read it.
    abbrev pub IsAsked : LongDouble → Type 0
    IsAsked x = (x ≡ l.lit 10 1) ⊎ ((tdf : LongDouble) × (x ≡ value tdf) × InBounds cfg tdf)

    -- A host whose agent is valid and has the settings, whose buffer has its size, whose monitor remembers
    -- all processors, whose reports can be delivered, and whose table and shared memory hold
    -- only TDFs that were asked for.
    pub record HostIsSound (name : Bytes) (h : Host) : Type 0 where
      pub configured : h.agent.config ≡ cfg
      pub valid : IsValid h.agent
      pub sized : length h.buffer ≡ max_length
      pub remembers : Remembers (processors name) h.cpu_monitor
      pub named : (tdf : LongDouble) → InBounds cfg tdf → IsDeliverable split name tdf
      pub entries : All (Holds IsAsked) h.agent.tdf_table.tdf_map
      pub in_force : IsAsked h.agent.tdf_table.latest_tdf
      pub in_memory : IsAsked h.agent.shared.tdf

    -- A datagram with a TDF within the bounds.
    abbrev pub IsReport : Bytes → Type 0
    IsReport d =
        (name : Bytes) × (tdf : LongDouble) × (d ≡ message name tdf)
        × InBounds cfg tdf
        × IsDeliverable split name tdf

    pub record IsSound (net : Network) : Type 0 where
      pub all_hosts : (name : Bytes) (h : Host) → find name net.hosts ≡ some h → HostIsSound name h
      pub all_sent : All IsReport net.sent

    -- A round reads the counters of all processors of the host.
    abbrev pub Fits : Event → Type 0
    Fits (round name cpu sim now) = length cpu.xcpu ≡ processors name
    Fits (receive name n) = Unit
    Fits (adjusts name stop begin) = Unit

    module _ (laws : IsOrdered l) (sound : l.lt cfg.tdf_max cfg.tdf_min ≡ false) where
      replaced :
          (net : Network) (name : Bytes) (h' : Host) (sent : List Bytes)
          → IsSound net
          → HostIsSound name h'
          → All IsReport sent
          → IsSound (record { hosts = insert name h' net.hosts; sent = sent })
      replaced net name h' sent ok new all = record {
        all_hosts = λ k h e. elim (same_or_not k name) [
          | inl at ↦
              let is : h' ≡ h = some_injective h' h (
                sym (find-insert_self name h' net.hosts)
                ∙ ap (λ x. find x (insert name h' net.hosts)) (sym at)
                ∙ e) in
              rw (at, ← is) new
          | inr ne ↦ ok.all_hosts k h (sym (find-insert_ne name k h' net.hosts ne) ∙ e)
        ];
        all_sent = all;
      }

      round_at-IsSound :
          (name : Bytes) (cpu : Cpu) (sim : SimulatorsState) (now : ℕ) (net : Network) (h : Host)
          → IsSound net
          → HostIsSound name h
          → length cpu.xcpu ≡ processors name
          → (net' : Network) × (round_at name cpu sim now net h ≡ done net') × IsSound net'
      unfolding round_at
      round_at-IsSound name cpu sim now net h ok hs fits =
          let rem : Remembers (length cpu.xcpu) h.cpu_monitor = rw fits hs.remembers in
          let (m, out, run1, rem1, off, on) =
            monitor-InBounds laws cfg sound name cpu sim now h.cpu_monitor rem in
          let h' : Host = record h { cpu_monitor = m } in
          let hs' : HostIsSound name h' = record {
            configured = hs.configured;
            valid = hs.valid;
            sized = hs.sized;
            remembers = rw (← fits) rem1;
            named = hs.named;
            entries = hs.entries;
            in_force = hs.in_force;
            in_memory = hs.in_memory;
          } in
          (
            record { hosts = insert name h' net.hosts; sent = broadcast out net.sent },
            rw (hs.configured, run1) refl,
            replaced net name h' (broadcast out net.sent) ok hs'
                (elim (Bool-cases (is_number cfg.is_load_monitored 0)) [
                  | inl e ↦ rw ((off e).1) ok.all_sent
                  | inr e ↦
                      let (tdf, sends, bounds) = on e in
                      rw sends ((name, tdf, refl, bounds, hs.named tdf bounds), ok.all_sent)
                ]),
          )

      receive_at-IsSound :
          (name d : Bytes) (net : Network) (h : Host)
          → IsSound net
          → HostIsSound name h
          → IsReport d
          → (net' : Network) × (receive_at split name d net h ≡ done net') × IsSound net'
      unfolding receive_at
      receive_at-IsSound name d net h ok hs (from, tdf, is, bounds, deliverable) =
          let v = hs.valid.tdf_valid in
          let (t, run1, t_ok, _, _, _, _) =
            set_lem laws h.agent.config h.agent.tdf_table from (value tdf) v in
          let (buffer, received, size) =
            handle_receive_from-set split from tdf h.buffer h.agent t deliverable hs.sized run1 in
          let asked =
            set-Holds IsAsked laws h.agent.config h.agent.tdf_table t from (value tdf) v run1
              (inr (tdf, refl, bounds)) (hs.entries, hs.in_force) in
          let h' : Host = record h {
            buffer = buffer;
            agent = record (h.agent) { tdf_table = t };
          } in
          (
            record net { hosts = insert name h' net.hosts },
            rw (is, received) refl,
            replaced net name h' net.sent ok
                (record {
                  configured = hs.configured;
                  valid = with_table-IsValid h.agent t hs.valid t_ok;
                  sized = size;
                  remembers = hs.remembers;
                  named = hs.named;
                  entries = asked.0;
                  in_force = asked.1;
                  in_memory = hs.in_memory;
                })
                ok.all_sent,
          )

      adjust_at-IsSound :
          (name : Bytes) (stop begin : HostTime) (net : Network) (h : Host)
          → IsSound net
          → HostIsSound name h
          → (net' : Network) × (adjust_at name stop begin net h ≡ done net') × IsSound net'
      unfolding adjust_at
      adjust_at-IsSound name stop begin net h ok hs =
          let (a, run1, valid, shown, table, config) = adjust_done stop begin h.agent hs.valid in
          let h' : Host = record h { agent = a } in
          (
            record net { hosts = insert name h' net.hosts },
            rw run1 refl,
            replaced net name h' net.sent ok
                (record {
                  configured = config ∙ hs.configured;
                  valid = valid;
                  sized = hs.sized;
                  remembers = hs.remembers;
                  named = hs.named;
                  entries = rw table hs.entries;
                  in_force = rw table hs.in_force;
                  in_memory = rw (shown, table) hs.in_force;
                })
                ok.all_sent,
          )

      -- Every event goes through and leaves the network sound.
      pub step-IsSound :
          (e : Event) (net : Network)
          → IsSound net
          → Fits e
          → (net' : Network) × (step split e net ≡ done net') × IsSound net'
      unfolding step
      step-IsSound (round name cpu sim now) net ok fits =
          elim (Option-cases (find name net.hosts)) [
            | inl nobody ↦ (net, rw (step, nobody) refl, ok)
            | inr (h, found) ↦
                rw (step, found)
                  (round_at-IsSound name cpu sim now net h ok (ok.all_hosts name h found) fits)
          ]
      step-IsSound (receive name n) net ok fits = elim (Option-cases (find name net.hosts)) [
        | inl nobody ↦ (net, rw (step, nobody) refl, ok)
        | inr (h, found) ↦ elim (Option-cases (nth net.sent n)) [
          | inl nothing ↦ (net, rw (step, found, nothing) refl, ok)
          | inr (d, was_sent) ↦
              rw (step, found, was_sent)
                (receive_at-IsSound name d net h ok (ok.all_hosts name h found)
                  (nth-All IsReport net.sent n d ok.all_sent was_sent))
        ]
      ]
      step-IsSound (adjusts name stop begin) net ok fits =
          elim (Option-cases (find name net.hosts)) [
            | inl nobody ↦ (net, rw (step, nobody) refl, ok)
            | inr (h, found) ↦
                rw (step, found)
                  (adjust_at-IsSound name stop begin net h ok (ok.all_hosts name h found))
          ]

      -- From a sound network every sequence of events goes through, whatever is lost, repeated or
      -- overtaken, and leaves it sound: no monitor, server or virtual time thread crashes, every
      -- datagram sent holds a TDF within the bounds of the settings, and of every host each entry
      -- of the table, the TDF in force and the one in the shared memory is the one that a table
      -- starts with or one within the bounds, as the agents read what a monitor printed. A round reads the counters of all processors of the host, and
      -- the greatest TDF of the settings is not below the least.
      pub run-IsSound :
          (es : List Event) (net : Network)
          → IsSound net
          → All Fits es
          → (net' : Network) × (run split es net ≡ done net') × IsSound net'
      unfolding run
      run-IsSound [] net ok fits = (net, refl, ok)
      run-IsSound (e ∷ es) net ok fits =
          let (net1, run1, ok1) = step-IsSound e net ok fits.0 in
          let (net2, run2, ok2) = run-IsSound es net1 ok1 fits.1 in (net2, rw run1 run2, ok2)
