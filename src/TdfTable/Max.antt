-- ===== src/TdfTable/Max.antt =====
-- `TdfTable::maxTdf` finds the greatest value of a table with no null pointer.
use virtual_time_synchroniza.Prelude.{
  ◌≡◌, refl, ◌⊎◌, inl, inr, true, false, Bytes, [], ◌∷◌, Option, none, some, done, arith, All,
  Bool-cases,
}
use virtual_time_synchroniza.Floats.{Floats, IsOrdered}
use virtual_time_synchroniza.TdfTable.{TdfEntry, TdfMap, max_loop, max_tdf}

module _ ⦃fl : Floats⦄ where
  open fl use {LongDouble, l}

  -- A pointer that is not null and whose value satisfies `P`.
  abbrev pub Holds : (LongDouble → Type 0) → Bytes × Option TdfEntry → Type 0
  Holds P (k, none) = ⊥
  Holds P (k, some e) = P e.base_tdf

  abbrev pub HasNoNull : TdfMap → Type 0
  HasNoNull = All (Holds λ x. Unit)

  -- No value of the table is greater than `m`.
  abbrev pub IsBound : LongDouble → TdfMap → Type 0
  IsBound m = All (Holds λ x. l.lt m x ≡ false)

  -- One of the table's values is `m`.
  abbrev pub Occurs : LongDouble → TdfMap → Type 0
  Occurs m [] = ⊥
  Occurs m ((k, none) ∷ rest) = Occurs m rest
  Occurs m ((k, some e) ∷ rest) = (e.base_tdf ≡ m) ⊎ Occurs m rest

  module _ (laws : IsOrdered l) where
    open laws use {lt_irrefl, lt_trans}

    above_lem :
        (m x r : LongDouble)
        → l.lt m x ≡ true
        → (r ≡ x) ⊎ (l.lt x r ≡ true)
        → (r ≡ m) ⊎ (l.lt m r ≡ true)
    above_lem m x r up (inl e) = inr (rw e up)
    above_lem m x r up (inr h) = inr (lt_trans m x r up h)

    below_lem : (x r : LongDouble) → (r ≡ x) ⊎ (l.lt x r ≡ true) → l.lt r x ≡ false
    below_lem x r (inl e) = rw e (lt_irrefl x)
    below_lem x r (inr h) = ground (arith, lt_trans x r x h, lt_irrefl x)

    -- The loop ends with a value no less than the one it starts with, whatever the comparison with
    -- NaN gives on the way.
    pub max_loop_lem :
        (m : LongDouble) (map : TdfMap)
        → HasNoNull map
        → (r : LongDouble) × (max_loop m map ≡ done r)
          × ((r ≡ m) ⊎ (l.lt m r ≡ true))
          × IsBound r map
          × ((r ≡ m) ⊎ Occurs r map)
    unfolding max_loop
    max_loop_lem m [] h = (m, refl, inl refl, tt, inl refl)
    max_loop_lem m ((k, none) ∷ rest) h = absurd h.0
    max_loop_lem m ((k, some e) ∷ rest) h = elim (Bool-cases (l.lt m e.base_tdf)) [
      | inl up ↦
          let (r, run, above, bound, occurs) = max_loop_lem e.base_tdf rest h.1 in
          rw up (
            r,
            run,
            above_lem m e.base_tdf r up above,
            (below_lem e.base_tdf r above, bound),
            ground arith,
          )
      | inr stay ↦
          let (r, run, above, bound, occurs) = max_loop_lem m rest h.1 in
          rw stay (r, run, above, (ground (arith, lt_trans m r e.base_tdf), bound), ground arith)
    ]

    -- For a table that has a first entry and no null pointer, `maxTdf` returns one of the table's
    -- values, and none of them is greater, NaN entries included.
    pub max_tdf_lem :
        (p : Bytes × Option TdfEntry) (rest : TdfMap)
        → HasNoNull (p ∷ rest)
        → (r : LongDouble) × (max_tdf (p ∷ rest) ≡ done r)
          × Occurs r (p ∷ rest)
          × IsBound r (p ∷ rest)
    unfolding max_tdf
    max_tdf_lem (k, none) rest h = absurd h.0
    max_tdf_lem (k, some e) rest h =
        let (r, run, above, bound, occurs) = max_loop_lem e.base_tdf ((k, some e) ∷ rest) h in
        (r, run, ground arith, bound)
