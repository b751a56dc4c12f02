-- ===== src/TdfTable/Entries.antt =====
-- A property that every entry of a table has, and the TDF in force, is kept by `set`.
use virtual_time_synchroniza.Prelude.{
  ◌≡◌, refl, sym, ◌∙◌, ap, inl, inr, Bytes, [], ◌∷◌, none, some, Outcome, done, crash, ◌>>=◌,
  done_injective, arith, All, Bool-cases,
}
use virtual_time_synchroniza.Floats.{Floats, IsOrdered}
use virtual_time_synchroniza.Configuration.{Configuration}
use virtual_time_synchroniza.OrderedMap.{insert}
use virtual_time_synchroniza.TdfTable.{TdfMap, TdfTable, max_tdf, adopt_max, set}
use virtual_time_synchroniza.TdfTable.Max.{Holds, Occurs}
use virtual_time_synchroniza.TdfTable.Update.{IsValid, Adopts, set_lem}

module _ ⦃fl : Floats⦄ where
  open fl use {LongDouble, l}

  module _ (P : LongDouble → Type 0) where
    insert-Holds :
        (k : Bytes) (v : LongDouble) (m : TdfMap)
        → P v
        → All (Holds P) m
        → All (Holds P) (insert k (some (record { base_tdf = v })) m)
    unfolding insert
    insert-Holds k v [] p h = (p, tt)
    insert-Holds k v ((j, w) ∷ m) p h = ground (arith, insert-Holds k v m p h.1)

    Occurs-Holds : (x : LongDouble) (m : TdfMap) → Occurs x m → All (Holds P) m → P x
    Occurs-Holds x [] o h = absurd o
    Occurs-Holds x ((k, none) ∷ m) o h = absurd h.0
    Occurs-Holds x ((k, some e) ∷ m) (inl at) h = rw (← at) h.0
    Occurs-Holds x ((k, some e) ∷ m) (inr o) h = Occurs-Holds x m o h.1

    map_by :
        (cfg : Configuration) (t t' : TdfTable) (o : Outcome LongDouble)
        → (o >>= λ m. done (adopt_max cfg t m)) ≡ done t'
        → t'.tdf_map ≡ t.tdf_map
    unfolding adopt_max
    map_by cfg t t' (done m) e =
        sym (ap (λ u. u.tdf_map) (done_injective (adopt_max cfg t m) t' e)) ∙ ground arith
    map_by cfg t t' (crash f) e = absurd cc

    set-tdf_map :
        (cfg : Configuration) (t t' : TdfTable) (host : Bytes) (v : LongDouble)
        → set cfg t host v ≡ done t'
        → t'.tdf_map ≡ insert host (some (record { base_tdf = v })) t.tdf_map
    unfolding set
    set-tdf_map cfg t t' host v run = elim (Bool-cases t.is_enabled) [
      | inl on ↦
          map_by cfg (record t { tdf_map = insert host (some (record { base_tdf = v })) t.tdf_map })
            t' (max_tdf (insert host (some (record { base_tdf = v })) t.tdf_map))
            (rw (← run, on) refl)
      | inr off ↦ sym (
          ap (λ u. u.tdf_map)
            (done_injective
              (record t { tdf_map = insert host (some (record { base_tdf = v })) t.tdf_map }) t'
              (rw (← run, off) refl)))
    ]

    -- If all entries of a valid table and the TDF in force have a property, and the TDF that is set has it,
    -- then so it is afterwards.
    pub set-Holds :
        (laws : IsOrdered l) (cfg : Configuration) (t t' : TdfTable) (host : Bytes) (v : LongDouble)
        → IsValid t
        → set cfg t host v ≡ done t'
        → P v
        → All (Holds P) t.tdf_map × P t.latest_tdf
        → All (Holds P) t'.tdf_map × P t'.latest_tdf
    set-Holds laws cfg t t' host v ok run p h =
        let all : All (Holds P) t'.tdf_map =
          rw (set-tdf_map cfg t t' host v run) (insert-Holds host v t.tdf_map p h.0) in
        let (t1, run1, _, _, _, _, adopts) = set_lem laws cfg t host v ok in
        let same = done_injective t1 t' (sym run1 ∙ run) in
        let now : Adopts cfg t t' = rw (← same) adopts in
        (
          all,
          elim now [
            | inl (kept, _, _) ↦ rw kept h.1
            | inr (_, _, occurs, _, _) ↦ Occurs-Holds t'.latest_tdf t'.tdf_map occurs all
          ],
        )
