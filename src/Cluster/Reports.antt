-- ===== src/Cluster/Reports.antt =====
-- What a run of reports leaves in a table.
use Prim.Native.Nat.{Ordering}
use virtual_time_synchroniza.Prelude.{
  ◌≡◌, ◌≢◌, refl, sym, ◌∙◌, ◌⊎◌, inl, inr, true, false, Bytes, List, [], ◌∷◌, Option, none, some,
  done, All, length, Bool-cases, Outcome, crash, ◌>>=◌, done_injective, Option-cases,
}
use virtual_time_synchroniza.Floats.{Floats, IsOrdered}
use virtual_time_synchroniza.Configuration.{Configuration}
use virtual_time_synchroniza.OrderedMap.{compare_bytes, find, insert}
use virtual_time_synchroniza.OrderedMap.Order.{eq_of_compare, compare_self}
use virtual_time_synchroniza.TdfTable.{TdfTable, TdfEntry, max_tdf, adopt_max, relative_change, set}
use virtual_time_synchroniza.TdfTable.Update.{IsValid, set_lem}
use virtual_time_synchroniza.Agent.{Agent}
use virtual_time_synchroniza.UdpAsyncServer.{serve, max_length}
use virtual_time_synchroniza.UdpAsyncServer.Receive.{IsDeliverable, handle_receive_from-set}
use virtual_time_synchroniza.Cluster.{Report, value, datagrams, set_all, last_report, entry_after}

module _ ⦃fl : Floats⦄ where
  open fl use {LongDouble, l}

  -- The TDF in force is the value, or nearer to it than the threshold.
  abbrev pub IsNear : Configuration → LongDouble → LongDouble → Type 0
  IsNear cfg m latest =
      (latest ≡ m) ⊎ (l.le cfg.tdf_change_threshold (relative_change m latest) ≡ false)

  -- The TDF in force is near the table's maximum.
  abbrev pub IsSettled : Configuration → TdfTable → Type 0
  IsSettled cfg t = (m : LongDouble) × (max_tdf t.tdf_map ≡ done m) × IsNear cfg m t.latest_tdf

  adopt_max-IsSettled :
      (cfg : Configuration) (t : TdfTable) (m : LongDouble)
      → max_tdf t.tdf_map ≡ done m
      → IsSettled cfg (adopt_max cfg t m)
  unfolding adopt_max
  adopt_max-IsSettled cfg t m run =
      elim (Bool-cases (l.le cfg.tdf_change_threshold (relative_change m t.latest_tdf))) [
        | inl far ↦ rw (far, relative_change) (m, run, inl refl)
        | inr near ↦ rw (near, relative_change) (m, run, inr near)
      ]

  IsSettled-by :
      (cfg : Configuration) (t t' : TdfTable) (o : Outcome LongDouble)
      → max_tdf t.tdf_map ≡ o
      → (o >>= λ m. done (adopt_max cfg t m)) ≡ done t'
      → IsSettled cfg t'
  IsSettled-by cfg t t' (done m) run e =
      rw (← done_injective (adopt_max cfg t m) t' e) (adopt_max-IsSettled cfg t m run)
  IsSettled-by cfg t t' (crash f) run e = absurd cc

  -- An enabled table is settled after every `set` that returns.
  set-IsSettled :
      (cfg : Configuration) (t t' : TdfTable) (host : Bytes) (v : LongDouble)
      → t.is_enabled ≡ true
      → set cfg t host v ≡ done t'
      → IsSettled cfg t'
  unfolding set
  set-IsSettled cfg t t' host v on run =
      IsSettled-by cfg
        (record t { tdf_map = insert host (some (record { base_tdf = v })) t.tdf_map }) t' _ refl
        (rw (← run, on) refl)

  apart : (k host : Bytes) (o : Ordering) → compare_bytes k host ≡ o → o ≢ Ordering.eq → k ≢ host
  apart k host o e ne at = ne (sym e ∙ rw at (compare_self host))

  -- One report more at the front counts as the entry that it leaves.
  entry_after-last_report :
      (k : Bytes) (before next : Option (Option TdfEntry)) (r : Report) (rs : List Report)
      → (k ≡ r.0 → next ≡ some (some (record { base_tdf = value r.1 })))
      → (k ≢ r.0 → next ≡ before)
      → entry_after (last_report k rs) next ≡ entry_after (last_report k (r ∷ rs)) before
  unfolding entry_after last_report
  entry_after-last_report k before next r rs here others = elim (Option-cases (last_report k rs)) [
    | inr (v, later) ↦ rw later refl
    | inl none_later ↦ rw none_later (by_order (compare_bytes k r.0) refl)
  ]
    where
      by_order :
          (o : Ordering)
          → compare_bytes k r.0 ≡ o
          → next ≡ entry_after (elim o [ Ordering.eq ↦ some (value r.1) | _ ↦ none ]) before
      by_order Ordering.lt e = others (apart k r.0 Ordering.lt e λ x. cc)
      by_order Ordering.eq e = here (eq_of_compare k r.0 e)
      by_order Ordering.gt e = others (apart k r.0 Ordering.gt e λ x. cc)

  module _ (laws : IsOrdered l) where
    -- On a valid table every run of reports succeeds: the table stays valid and as enabled as it was, each
    -- host has what it reported last or else its old entry. An enabled table is settled afterwards, unless the
    -- run is empty and the table was not settled before.
    pub set_all_lem :
        (cfg : Configuration) (t : TdfTable) (rs : List Report)
        → IsValid t
        → (t' : TdfTable) × (set_all cfg t rs ≡ done t')
          × IsValid t'
          × (t'.is_enabled ≡ t.is_enabled)
          × ((k : Bytes) → find k t'.tdf_map ≡ entry_after (last_report k rs) (find k t.tdf_map))
          × (t.is_enabled ≡ true → (rs ≡ [] → IsSettled cfg t) → IsSettled cfg t')
    unfolding set_all
    set_all_lem cfg t [] ok =
        (t, refl, ok, refl, λ k. unfold entry_after last_report in refl, λ on s. s refl)
    set_all_lem cfg t (r ∷ rs) ok =
        let (t1, run1, ok1, here, others, same1, adopts) = set_lem laws cfg t r.0 (value r.1) ok in
        let (t2, run2, ok2, same2, found, settled) = set_all_lem cfg t1 rs ok1 in
        (
          t2,
          rw run1 run2,
          ok2,
          same2 ∙ same1,
          λ k. found k ∙ entry_after-last_report k _ _ r rs (λ at. rw at here) (others k),
          λ on s. settled (same1 ∙ on) λ e. set-IsSettled cfg t t1 r.0 (value r.1) on run1,
        )

    -- The datagrams of the reports do to an agent what the reports do to its table.
    pub serve-set_all :
        (split : Bytes → List Bytes) (rs : List Report) (contents : Bytes) (a : Agent)
        (t' : TdfTable)
        → All (λ r. IsDeliverable split r.0 r.1) rs
        → length contents ≡ max_length
        → IsValid a.tdf_table
        → set_all a.config a.tdf_table rs ≡ done t'
        → (buffer : Bytes) × (serve split (datagrams rs) contents a
            ≡ done (buffer, record a { tdf_table = t' }))
          × (length buffer ≡ max_length)
    unfolding serve set_all
    serve-set_all split [] contents a t' ok size v run =
        (contents, rw (done_injective a.tdf_table t' run) refl, size)
    serve-set_all split (r ∷ rs) contents a t' ok size v run =
        let (t1, run1, ok1, _, _, _, _) = set_lem laws a.config a.tdf_table r.0 (value r.1) v in
        let (buffer1, received, size1) =
          handle_receive_from-set split r.0 r.1 contents a t1 ok.0 size run1 in
        let (buffer, served, size2) =
          serve-set_all split rs buffer1 (record a { tdf_table = t1 }) t' ok.1 size1 ok1
            (rw (← run, run1) refl) in
        (buffer, rw received served, size2)
