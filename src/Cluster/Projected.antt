-- ===== src/Cluster/Projected.antt =====
-- A run of the network, seen from one host.
use virtual_time_synchroniza.Prelude.{
  ℕ, ◌≡◌, refl, sym, ap, ◌∙◌, inl, inr, false, Bytes, List, [], ◌∷◌, ◌++◌, none, some, done,
  done_injective, bind_done, All, Option-cases,
}
use virtual_time_synchroniza.Floats.{Floats, IsOrdered}
use virtual_time_synchroniza.Configuration.{Configuration}
use virtual_time_synchroniza.OrderedMap.{find}
use virtual_time_synchroniza.OrderedMap.Order.{same_or_not}
use virtual_time_synchroniza.Agent.{Agent}
use virtual_time_synchroniza.UdpAsyncServer.{handle_receive_from, serve}
use virtual_time_synchroniza.Cluster.Network.{
  Host, Network, Event, round, receive, adjusts, nth, round_at, receive_at, adjust_at, step, run,
}
use virtual_time_synchroniza.Cluster.Safety.{IsSound, IsReport, Fits, step-IsSound, nth-All}
use virtual_time_synchroniza.Cluster.Projection.{
  received_by, heard, Agrees, Follows, idle-Follows, received_nothing, received_other,
  report-Follows, round-Follows, adjust-Follows, other-Follows,
}

module _ ⦃fl : Floats⦄ where
  open fl use {l}

  module _ (cfg : Configuration) (split : Bytes → List Bytes) (processors : Bytes → ℕ)
      (laws : IsOrdered l) (sound : l.lt cfg.tdf_max cfg.tdf_min ≡ false) where
    no_datagram :
        (k : Bytes) (n : ℕ) (net : Network)
        → nth net.sent n ≡ none
        → step split (receive k n) net ≡ done net
    unfolding step
    no_datagram k n net nothing = elim (Option-cases (find k net.hosts)) [
      | inl nobody ↦ rw (step, nobody) refl
      | inr (g, at_k) ↦ rw (step, at_k, nothing) refl
    ]

    receive-Follows :
        (name k : Bytes) (n : ℕ) (net net' : Network) (h : Host) (buffer : Bytes) (a : Agent)
        → IsSound cfg split processors net
        → find name net.hosts ≡ some h
        → step split (receive k n) net ≡ done net'
        → Agrees h buffer a
        → Follows split name (receive k n) net net' buffer a
    unfolding step
    receive-Follows name k n net net' h buffer a ok found goes agrees =
        elim (Option-cases (nth net.sent n)) [
          | inl nothing ↦
              idle-Follows split name (receive k n) net net' h buffer a
                (received_nothing split name k n net nothing)
                (done_injective net net' (sym (no_datagram k n net nothing) ∙ goes)) found agrees
          | inr (d, was_sent) ↦ elim (same_or_not name k) [
            | inl at ↦
                let there : step split (receive name n) net ≡ receive_at split name d net h =
                  rw (step, found, was_sent) refl in
                let goes_here : step split (receive name n) net ≡ done net' = rw at goes in
                rw (← at) (
                  report-Follows split cfg processors laws name d n net net' h buffer a
                    (ok.all_hosts name h found)
                    (nth-All (IsReport cfg split processors) net.sent n d ok.all_sent was_sent)
                    was_sent (sym there ∙ goes_here) agrees)
            | inr ne ↦ elim (Option-cases (find k net.hosts)) [
              | inl nobody ↦
                  let idle : step split (receive k n) net ≡ done net = rw (step, nobody) refl in
                  idle-Follows split name (receive k n) net net' h buffer a
                    (received_other split name k n net ne)
                    (done_injective net net' (sym idle ∙ goes)) found agrees
              | inr (g, at_k) ↦
                  let there : step split (receive k n) net ≡ receive_at split k d net g =
                    rw (step, at_k, was_sent) refl in
                  other-Follows split name k d n net net' h g buffer a ne found (sym there ∙ goes)
                    agrees
            ]
          ]
        ]

    -- A host follows every event of a sound network.
    step-Follows :
        (name : Bytes) (e : Event) (net net' : Network) (h : Host) (buffer : Bytes) (a : Agent)
        → IsSound cfg split processors net
        → find name net.hosts ≡ some h
        → step split e net ≡ done net'
        → Agrees h buffer a
        → Follows split name e net net' buffer a
    unfolding step
    step-Follows name (round k cpu sim now) net net' h buffer a ok found goes agrees =
        elim (Option-cases (find k net.hosts)) [
          | inl nobody ↦
              let idle : step split (round k cpu sim now) net ≡ done net = rw (step, nobody) refl in
              idle-Follows split name (round k cpu sim now) net net' h buffer a
                (unfold received_by in refl) (done_injective net net' (sym idle ∙ goes)) found
                agrees
          | inr (g, at_k) ↦
              let there : step split (round k cpu sim now) net ≡ round_at k cpu sim now net g =
                rw (step, at_k) refl in
              round-Follows split name k cpu sim now net net' h g buffer a found at_k
                (sym there ∙ goes) agrees
        ]
    step-Follows name (adjusts k stop begin) net net' h buffer a ok found goes agrees =
        elim (Option-cases (find k net.hosts)) [
          | inl nobody ↦
              let idle : step split (adjusts k stop begin) net ≡ done net =
                rw (step, nobody) refl in
              idle-Follows split name (adjusts k stop begin) net net' h buffer a
                (unfold received_by in refl) (done_injective net net' (sym idle ∙ goes)) found
                agrees
          | inr (g, at_k) ↦
              let there : step split (adjusts k stop begin) net ≡ adjust_at k stop begin net g =
                rw (step, at_k) refl in
              adjust-Follows split name k stop begin net net' h g buffer a
                (ok.all_hosts k g at_k).valid found at_k (sym there ∙ goes) agrees
        ]
    step-Follows name (receive k n) net net' h buffer a ok found goes agrees =
        receive-Follows name k n net net' h buffer a ok found goes agrees

    serve-append :
        (ds es : List Bytes) (buffer b1 : Bytes) (a a1 : Agent)
        → serve split ds buffer a ≡ done (b1, a1)
        → serve split (ds ++ es) buffer a ≡ serve split es b1 a1
    unfolding serve
    serve-append [] es buffer b1 a a1 e =
        ap (λ p. serve split es (p.0) (p.1)) (done_injective (buffer, a) (b1, a1) e)
    serve-append (d ∷ ds) es buffer b1 a a1 e =
        let (r, run1, rest) = bind_done (handle_receive_from split false d buffer a) _ (b1, a1) e in
        rw run1 (serve-append ds es (r.0) b1 (r.1) a1 rest)

    heard_next :
        (name : Bytes) (e : Event) (es : List Event) (net net1 : Network)
        → step split e net ≡ done net1
        → heard split name (e ∷ es) net ≡ received_by name e net ++ heard split name es net1
    unfolding heard
    heard_next name e es net net1 goes = rw (heard, goes) refl

    run-Agrees :
        (es : List Event) (name : Bytes) (net : Network) (h : Host) (buffer : Bytes) (a : Agent)
        → IsSound cfg split processors net
        → All (Fits cfg split processors) es
        → find name net.hosts ≡ some h
        → Agrees h buffer a
        → (net' : Network) × (h' : Host) × (buffer' : Bytes) × (a' : Agent) × (run split es net
            ≡ done net')
          × (find name net'.hosts ≡ some h')
          × (serve split (heard split name es net) buffer a ≡ done (buffer', a'))
          × Agrees h' buffer' a'
    unfolding run Follows
    run-Agrees [] name net h buffer a ok fits found agrees =
        (net, h, buffer, a, refl, found, unfold heard serve in refl, agrees)
    run-Agrees (e ∷ es) name net h buffer a ok fits found agrees =
        let (net1, step1, ok1) = step-IsSound cfg split processors laws sound e net ok fits.0 in
        let (h1, b1, a1, found1, served1, agrees1) =
          step-Follows name e net net1 h buffer a ok found step1 agrees in
        let (net', h', b', a', rest, found', served, agrees') =
          run-Agrees es name net1 h1 b1 a1 ok1 fits.1 found1 agrees1 in
        (
          net',
          h',
          b',
          a',
          rw step1 rest,
          found',
          rw (heard_next name e es net net1 step1) (
              serve-append (received_by name e net) (heard split name es net1) buffer b1 a a1
                served1
              ∙ served),
          agrees',
        )

    -- Every run of a sound network goes through, and the table of a host that is in it ends as the host's
    -- server alone leaves it after the datagrams that the host received, in the order in which they
    -- came: neither the other hosts, nor the rounds of its own monitor and virtual time thread, nor
    -- what else became of the datagrams, make a difference to it.
    pub run-serve :
        (es : List Event) (name : Bytes) (net : Network) (h : Host)
        → IsSound cfg split processors net
        → All (Fits cfg split processors) es
        → find name net.hosts ≡ some h
        → (net' : Network) × (h' : Host) × (buffer' : Bytes) × (a' : Agent) × (run split es net
            ≡ done net')
          × (find name net'.hosts ≡ some h')
          × (serve split (heard split name es net) h.buffer h.agent ≡ done (buffer', a'))
          × (a'.tdf_table ≡ h'.agent.tdf_table)
    run-serve es name net h ok fits found =
        let (net', h', b', a', goes, found', served, agrees) =
          run-Agrees es name net h h.buffer h.agent ok fits found (record {
            same_table = refl;
            same_config = refl;
            sized = (ok.all_hosts name h found).sized;
          }) in
        (net', h', b', a', goes, found', served, agrees.same_table)
