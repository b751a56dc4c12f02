-- ===== src/TdfTable/Update.antt =====
-- What `TdfTable::set` and `MemoryDatabase::enforceTdf` do to a table.
use virtual_time_synchroniza.Prelude.{
  suc, ◌≡◌, ◌≢◌, refl, ◌⊎◌, inl, inr, true, false, Bytes, [], ◌∷◌, Option, none, some, ◌∙◌, done,
  crash, null_pointer, arith, Bool-cases,
}
use virtual_time_synchroniza.Floats.{Floats, IsOrdered}
use virtual_time_synchroniza.Configuration.{Configuration}
use virtual_time_synchroniza.OrderedMap.{OrderedMap, IsSorted, compare_bytes, find, insert}
use virtual_time_synchroniza.OrderedMap
use virtual_time_synchroniza.OrderedMap.Laws.{insert-IsSorted, find-insert_self, find-insert_ne}
use virtual_time_synchroniza.TdfTable.{
  TdfEntry, TdfMap, TdfTable, max_loop, max_tdf, relative_change, adopt_max, set, get, enforce_tdf,
}
use virtual_time_synchroniza.TdfTable.Max.{HasNoNull, IsBound, Occurs, max_tdf_lem}

module _ ⦃fl : Floats⦄ where
  open fl use {LongDouble, l}

  pub record IsValid (t : TdfTable) : Type 0 where
    pub sorted : IsSorted t.tdf_map
    pub no_null : HasNoNull t.tdf_map

  pub insert-HasNoNull :
      (k : Bytes) (e : TdfEntry) (m : TdfMap) → HasNoNull m → HasNoNull (insert k (some e) m)
  unfolding insert
  insert-HasNoNull k e [] h = (tt, tt)
  insert-HasNoNull k e ((j, w) ∷ m) h = ground (arith, insert-HasNoNull k e m h.1)

  pub erase-HasNoNull : (k : Bytes) (m : TdfMap) → HasNoNull m → HasNoNull (OrderedMap.erase k m)
  unfolding OrderedMap.erase
  erase-HasNoNull k [] h = tt
  erase-HasNoNull k ((j, w) ∷ m) h = ground (arith, erase-HasNoNull k m h.1)

  -- What a successful `set` leaves of the TDF in force: the old one, with nobody notified, or the
  -- greatest value of the new map, with one notification more, where that is as far from the old
  -- one as the threshold says.
  abbrev pub Adopts : Configuration → TdfTable → TdfTable → Type 0
  Adopts cfg t t' =
      ((t'.latest_tdf ≡ t.latest_tdf)
        × (t'.notifications ≡ t.notifications)
        × ((t.is_enabled ≡ false)
            ⊎ ((m : LongDouble) × Occurs m t'.tdf_map
                × IsBound m t'.tdf_map
                × (l.le cfg.tdf_change_threshold (relative_change m t.latest_tdf) ≡ false))))
      ⊎ ((t.is_enabled ≡ true)
          × (t'.notifications ≡ suc t.notifications)
          × Occurs t'.latest_tdf t'.tdf_map
          × IsBound t'.latest_tdf t'.tdf_map
          × (l.le cfg.tdf_change_threshold (relative_change t'.latest_tdf t.latest_tdf) ≡ true))

  module _ (laws : IsOrdered l) where
    max_tdf_found :
        (k : Bytes) (w : Option TdfEntry) (m : TdfMap)
        → HasNoNull m
        → find k m ≡ some w
        → (r : LongDouble) × (max_tdf m ≡ done r) × Occurs r m × IsBound r m
    unfolding find
    max_tdf_found k w [] h f = absurd (ground arith)
    max_tdf_found k w (p ∷ rest) h f = max_tdf_lem laws p rest h

    adopt_max-is_enabled :
        (cfg : Configuration) (t : TdfTable) (m : LongDouble)
        → (adopt_max cfg t m).is_enabled ≡ t.is_enabled
    unfolding adopt_max
    adopt_max-is_enabled cfg t m = ground arith

    adopt_max-Adopts :
        (cfg : Configuration) (t : TdfTable) (map : TdfMap) (m : LongDouble)
        → t.is_enabled ≡ true
        → Occurs m map
        → IsBound m map
        → Adopts cfg t (adopt_max cfg (record t { tdf_map = map }) m)
          × ((adopt_max cfg (record t { tdf_map = map }) m).tdf_map ≡ map)
    unfolding adopt_max
    adopt_max-Adopts cfg t map m on occurs bound =
        elim (Bool-cases (l.le cfg.tdf_change_threshold (relative_change m t.latest_tdf))) [
          | inl far ↦ rw (far, relative_change) (inr (on, refl, occurs, bound, far), refl)
          | inr near ↦
              rw (near, relative_change) (inl (refl, refl, inr (m, occurs, bound, near)), refl)
        ]

    -- On a valid table `set` never crashes. The table stays valid, the host has the new value and
    -- every other host its old one. The TDF in force becomes the maximum of the table exactly where
    -- the table is enabled and the maximum is far enough from the TDF in force; the waiting thread is
    -- notified then, and only then.
    pub set_lem :
        (cfg : Configuration) (t : TdfTable) (host : Bytes) (v : LongDouble)
        → IsValid t
        → (t' : TdfTable) × (set cfg t host v ≡ done t')
          × IsValid t'
          × (find host t'.tdf_map ≡ some (some (record { base_tdf = v })))
          × ((j : Bytes) → j ≢ host → find j t'.tdf_map ≡ find j t.tdf_map)
          × (t'.is_enabled ≡ t.is_enabled)
          × Adopts cfg t t'
    unfolding set
    set_lem cfg t host v ok = elim (Bool-cases t.is_enabled) [
      | inr off ↦
          (record t { tdf_map = map }, rw off, valid, here, others, refl, inl (refl, refl, inl off))
      | inl on ↦
          let (m, run, occurs, bound) = max_tdf_found host _ map valid.no_null here in
          let (adopts, same) = adopt_max-Adopts cfg t map m on occurs bound in
          (
            adopt_max cfg (record t { tdf_map = map }) m,
            rw (on, run),
            record { sorted = rw same valid.sorted; no_null = rw same valid.no_null },
            rw same here,
            rw same others,
            adopt_max-is_enabled cfg (record t { tdf_map = map }) m,
            adopts,
          )
    ]
      where
        map : TdfMap
        map = insert host (some (record { base_tdf = v })) t.tdf_map

        valid : IsValid (record t { tdf_map = map })
        valid = record {
          sorted = insert-IsSorted host _ t.tdf_map ok.sorted;
          no_null = insert-HasNoNull host _ t.tdf_map ok.no_null;
        }

        here : find host map ≡ some (some (record { base_tdf = v }))
        here = find-insert_self host _ t.tdf_map

        others : (j : Bytes) → j ≢ host → find j map ≡ find j t.tdf_map
        others j ne = find-insert_ne host j _ t.tdf_map ne

  -- `enforceTdf` puts the given TDF in force and notifies. From then on a `set` changes only the map,
  -- until the table is enabled again.
  pub set-enforce_tdf :
      (cfg : Configuration) (t : TdfTable) (forced : LongDouble) (host : Bytes) (v : LongDouble)
      → set cfg (enforce_tdf t forced) host v
        ≡ done (record {
          tdf_map = insert host (some (record { base_tdf = v })) t.tdf_map;
          is_enabled = false;
          latest_tdf = forced;
          notifications = suc t.notifications;
        })
  unfolding set enforce_tdf
  set-enforce_tdf cfg t forced host v = refl

  max_loop_null :
      (k : Bytes) (m : TdfMap) (x : LongDouble)
      → find k m ≡ some none
      → max_loop x m ≡ crash null_pointer
  unfolding max_loop find
  max_loop_null k [] x f = ground arith
  max_loop_null k ((j, none) ∷ rest) x f = refl
  max_loop_null k ((j, some e) ∷ rest) x f =
      ground (arith, max_loop_null k rest e.base_tdf, max_loop_null k rest x)

  max_tdf_null : (k : Bytes) (m : TdfMap) → find k m ≡ some none → max_tdf m ≡ crash null_pointer
  unfolding max_tdf
  max_tdf_null k [] f = absurd (unfold find in ground arith)
  max_tdf_null k ((j, none) ∷ rest) f = refl
  max_tdf_null k ((j, some e) ∷ rest) f = max_loop_null k ((j, some e) ∷ rest) e.base_tdf f

  -- Once `get` was asked for a host that the table does not hold, every `set` of another host to
  -- an enabled table crashes on the null pointer that `get` left behind.
  pub set-get_missing :
      (cfg : Configuration) (t : TdfTable) (asked host : Bytes) (v : LongDouble)
      → find asked t.tdf_map ≡ none
      → asked ≢ host
      → t.is_enabled ≡ true
      → set cfg (get t asked).0 host v ≡ crash null_pointer
  unfolding set get
  set-get_missing cfg t asked host v missing ne on =
      rw (missing, get, on, max_tdf_null asked _ poisoned)
    where
      poisoned :
          find asked (insert host (some (record { base_tdf = v })) (insert asked none t.tdf_map))
          ≡ some none
      poisoned =
          find-insert_ne host asked _ (insert asked none t.tdf_map) ne
          ∙ find-insert_self asked none t.tdf_map
