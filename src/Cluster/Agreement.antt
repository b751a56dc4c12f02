-- ===== src/Cluster/Agreement.antt =====
-- Agents that heard the same reports, however the network ordered, repeated or lost them on the way.
use virtual_time_synchroniza.Prelude.{
  ◌≡◌, refl, sym, ap, ◌∙◌, Option, none, some, true, Bytes, List, ◌∷◌, done, done_injective, All,
  length,
}
use virtual_time_synchroniza.Floats.{Floats, IsOrdered}
use virtual_time_synchroniza.OrderedMap.{find}
use virtual_time_synchroniza.OrderedMap.Canonical.{eq_of_find}
use virtual_time_synchroniza.TdfTable.{TdfEntry, max_tdf}
use virtual_time_synchroniza.Agent.{Agent, IsValid}
use virtual_time_synchroniza.Message.Validity.{with_table-IsValid}
use virtual_time_synchroniza.UdpAsyncServer.{serve, max_length}
use virtual_time_synchroniza.UdpAsyncServer.Receive.{IsDeliverable}
use virtual_time_synchroniza.Cluster.{Report, datagrams, last_report, entry_after}
use virtual_time_synchroniza.Cluster.Reports.{IsNear, IsSettled, set_all_lem, serve-set_all}

module _ ⦃fl : Floats⦄ where
  open fl use {LongDouble, l}

  -- Every host's last report is the same in both.
  abbrev pub SameLast : List Report → List Report → Type 0
  SameLast rs qs = (host : Bytes) → last_report host rs ≡ last_report host qs

  module _ (laws : IsOrdered l) (split : Bytes → List Bytes) where
    -- The server of one agent takes in a run of reports: where it ends.
    served :
        (r : Report) (rs : List Report) (contents : Bytes) (a : Agent)
        → All (λ q. IsDeliverable split q.0 q.1) (r ∷ rs)
        → length contents ≡ max_length
        → IsValid a
        → a.tdf_table.is_enabled ≡ true
        → (buffer : Bytes) × (a' : Agent) × (serve split (datagrams (r ∷ rs)) contents a
            ≡ done (buffer, a'))
          × IsValid a'
          × ((k : Bytes)
              → find k a'.tdf_table.tdf_map
                ≡ entry_after (last_report k (r ∷ rs)) (find k a.tdf_table.tdf_map))
          × IsSettled a.config a'.tdf_table
    served r rs contents a ok size v on =
        let (t', run, valid, _, found, settled) =
          set_all_lem laws a.config a.tdf_table (r ∷ rs) v.tdf_valid in
        let (buffer, received, _) =
          serve-set_all laws split (r ∷ rs) contents a t' ok size v.tdf_valid run in
        (
          buffer,
          record a { tdf_table = t' },
          received,
          with_table-IsValid a t' v valid,
          found,
          settled on λ e. absurd cc,
        )

    -- The entries of a host are the same afterwards if they were before or if the host reported.
    entries-agree :
        (o : Option LongDouble) (x y : Option (Option TdfEntry))
        → (o ≡ none → x ≡ y)
        → entry_after o x ≡ entry_after o y
    unfolding entry_after
    entries-agree none x y h = h refl
    entries-agree (some v) x y h = refl

    -- Two valid agents whose tables are enabled take in two runs of datagrams, each of at least one, in which
    -- every host's last report is the same; a host that is in neither has the same entry, or none, in
    -- both tables. In whatever order the hosts' datagrams come, however often each is repeated,
    -- whichever earlier ones are lost and whatever the tables held of the hosts that report, both
    -- servers take in all of theirs, the tables hold the same in the end, and the TDF that each
    -- agent has in force is the common maximum of the tables, or nearer to it than that agent's
    -- threshold.
    pub serve-agree :
        (r q : Report) (rs qs : List Report) (x y : Bytes) (a b : Agent)
        → All (λ p. IsDeliverable split p.0 p.1) (r ∷ rs)
        → All (λ p. IsDeliverable split p.0 p.1) (q ∷ qs)
        → SameLast (r ∷ rs) (q ∷ qs)
        → (length x ≡ max_length) × (length y ≡ max_length)
        → IsValid a × IsValid b
        → (a.tdf_table.is_enabled ≡ true) × (b.tdf_table.is_enabled ≡ true)
        → ((k : Bytes)
            → last_report k (r ∷ rs) ≡ none
            → find k a.tdf_table.tdf_map ≡ find k b.tdf_table.tdf_map)
        → (x' : Bytes) × (y' : Bytes) × (a' : Agent) × (b' : Agent) × (m : LongDouble) × (serve
              split
              (datagrams (r ∷ rs))
              x
              a
            ≡ done (x', a'))
          × (serve split (datagrams (q ∷ qs)) y b ≡ done (y', b'))
          × (a'.tdf_table.tdf_map ≡ b'.tdf_table.tdf_map)
          × (max_tdf a'.tdf_table.tdf_map ≡ done m)
          × IsNear a.config m a'.tdf_table.latest_tdf
          × IsNear b.config m b'.tdf_table.latest_tdf
    serve-agree r q rs qs x y a b all_r all_q same sizes valid on start =
        let (x', a', run_a, va, found_a, (m, max_a, near_a)) =
          served r rs x a all_r sizes.0 valid.0 on.0 in
        let (y', b', run_b, vb, found_b, (n, max_b, near_b)) =
          served q qs y b all_q sizes.1 valid.1 on.1 in
        let maps : a'.tdf_table.tdf_map ≡ b'.tdf_table.tdf_map =
          eq_of_find a'.tdf_table.tdf_map b'.tdf_table.tdf_map va.tdf_valid.sorted
            vb.tdf_valid.sorted
            λ k.
              found_a k
              ∙ entries-agree (last_report k (r ∷ rs)) _ _ (start k)
              ∙ ap (λ o. entry_after o (find k b.tdf_table.tdf_map)) (same k)
              ∙ sym (found_b k) in
        let common : n ≡ m = done_injective n m (sym max_b ∙ rw (← maps) max_a) in
        (x', y', a', b', m, run_a, run_b, maps, max_a, near_a, rw (← common) near_b)
