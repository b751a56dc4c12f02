-- ===== src/Cluster/Orders.antt =====
-- The order of the reports shows in the TDF in force.
use virtual_time_synchroniza.Prelude.{
  ◌≡◌, ◌≢◌, refl, sym, inl, inr, Bool-cases, true, false, Bytes, [], ◌∷◌, some, done, arith,
}
use virtual_time_synchroniza.Floats.{Floats, IsOrdered}
use virtual_time_synchroniza.Configuration.{Configuration}
use virtual_time_synchroniza.OrderedMap.{insert}
use virtual_time_synchroniza.OrderedMap.Order.{eq_of_compare, compare_self, lt_trans, lt_of_gt}
use virtual_time_synchroniza.TdfTable.{
  TdfTable, empty_table, max_loop, max_tdf, adopt_max, set_latest_tdf, notify_all, relative_change,
  set,
}
use virtual_time_synchroniza.Cluster.{Report, value, set_all}

insert_swap {ℓ} :
    {V : Type ℓ} (h k : Bytes) (u v : V)
    → h ≢ k
    → insert h u (insert k v []) ≡ insert k v (insert h u [])
unfolding insert
insert_swap h k u v ne = ground (
  arith,
  eq_of_compare h k,
  eq_of_compare k h,
  lt_of_gt h k,
  lt_of_gt k h,
  lt_trans h k h,
  compare_self h,
)

module _ ⦃fl : Floats⦄ where
  open fl use {LongDouble, l}

  max_of_one :
      (h : Bytes) (u : LongDouble)
      → l.lt u u ≡ false
      → max_tdf (insert h (some (record { base_tdf = u })) []) ≡ done u
  unfolding max_tdf max_loop insert
  max_of_one h u irrefl = ground arith

  max_of_two :
      (h k : Bytes) (u v : LongDouble)
      → h ≢ k
      → l.lt u u ≡ false
      → l.lt v v ≡ false
      → l.lt u v ≡ true
      → l.lt v u ≡ false
      → (max_tdf (
            insert h
              (some (record { base_tdf = u }))
              (insert k (some (record { base_tdf = v })) []))
          ≡ done v)
        × (max_tdf (
              insert k
                (some (record { base_tdf = v }))
                (insert h (some (record { base_tdf = u })) []))
            ≡ done v)
  unfolding max_tdf max_loop insert
  max_of_two h k u v ne uu vv uv vu = ground (arith, eq_of_compare h k, eq_of_compare k h)

  -- An enabled table that has heard from nobody yet.
  abbrev pub unheard : LongDouble → TdfTable
  unheard x = record empty_table { is_enabled = true; latest_tdf = x }

  -- Two hosts report one TDF each to agents whose tables are enabled and empty. Both TDFs are far enough
  -- from the one in force to be adopted, but the greater is not far enough from the less. An
  -- agent that hears the less first has that in force in the end, and one that hears the greater
  -- first the greater, though their tables hold the same.
  pub set_all_orders :
      (laws : IsOrdered l) (cfg : Configuration) (x : LongDouble) (r q : Report)
      → r.0 ≢ q.0
      → l.lt (value r.1) (value q.1) ≡ true
      → l.le cfg.tdf_change_threshold (relative_change (value r.1) x) ≡ true
      → l.le cfg.tdf_change_threshold (relative_change (value q.1) x) ≡ true
      → l.le cfg.tdf_change_threshold (relative_change (value q.1) (value r.1)) ≡ false
      → (t : TdfTable) × (t' : TdfTable) × (set_all cfg (unheard x) (r ∷ q ∷ []) ≡ done t)
        × (set_all cfg (unheard x) (q ∷ r ∷ []) ≡ done t')
        × (t.tdf_map ≡ t'.tdf_map)
        × (t.latest_tdf ≡ value r.1)
        × (t'.latest_tdf ≡ value q.1)
  unfolding set_all set adopt_max set_latest_tdf notify_all
  set_all_orders laws cfg x r q ne less near_r near_q close =
      let u = value r.1 in
      let v = value q.1 in
      let uu = laws.lt_irrefl u in
      let vv = laws.lt_irrefl v in
      let vu : l.lt v u ≡ false = ground (arith, laws.lt_trans u v u less, uu) in
      let (after_q, after_r) = max_of_two r.0 q.0 u v ne uu vv less vu in
      let one_u = max_of_one r.0 u uu in
      let one_v = max_of_one q.0 v vv in
      let swap =
        insert_swap q.0 r.0 (some (record { base_tdf = v })) (some (record { base_tdf = u })) in
      elim (Bool-cases (l.le cfg.tdf_change_threshold (relative_change v v))) [
        | inl again ↦
            rw (one_u, one_v, near_r, near_q, after_q, after_r, close, again)
              (_, _, refl, refl, swap λ e. ne (sym e), refl, refl)
        | inr still ↦
            rw (one_u, one_v, near_r, near_q, after_q, after_r, close, still)
              (_, _, refl, refl, swap λ e. ne (sym e), refl, refl)
      ]
