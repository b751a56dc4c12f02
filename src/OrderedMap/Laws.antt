-- ===== src/OrderedMap/Laws.antt =====
-- What `find` sees after an assignment and after an erasure, and that both keep the order.
use Prim.Native.Nat.{Ordering}
use virtual_time_synchroniza.Prelude.{Bytes, [], ◌∷◌, none, some, ◌≡◌, ◌≢◌, refl, arith, All}
use virtual_time_synchroniza.OrderedMap.{compare_bytes, OrderedMap, find, insert, erase, IsSorted}
use virtual_time_synchroniza.OrderedMap.Order.{eq_of_compare, compare_self, lt_trans, lt_of_gt}

module _ {ℓ} {V : Type ℓ} where
  pub find-insert_self : (k : Bytes) (v : V) (m : OrderedMap V) → find k (insert k v m) ≡ some v
  unfolding find insert
  find-insert_self k v [] = ground (arith, compare_self k)
  find-insert_self k v ((j, w) ∷ m) = ground (arith, compare_self k, find-insert_self k v m)

  pub find-insert_ne :
      (k j : Bytes) (v : V) (m : OrderedMap V) → j ≢ k → find j (insert k v m) ≡ find j m
  unfolding find insert
  find-insert_ne k j v [] ne = ground (arith, eq_of_compare j k)
  find-insert_ne k j v ((i, w) ∷ m) ne =
      ground (arith, eq_of_compare j k, eq_of_compare k i, find-insert_ne k j v m)

  abbrev pub Above : Bytes → OrderedMap V → Type 0
  Above k = All (λ e. compare_bytes k e.0 ≡ Ordering.lt)

  pub Above-trans :
      (j k : Bytes) (m : OrderedMap V) → compare_bytes j k ≡ Ordering.lt → Above k m → Above j m
  Above-trans j k [] h a = tt
  Above-trans j k ((i, w) ∷ m) h a = (lt_trans j k i h a.0, Above-trans j k m h a.1)

  insert-Above :
      (j k : Bytes) (v : V) (m : OrderedMap V)
      → compare_bytes j k ≡ Ordering.lt
      → Above j m
      → Above j (insert k v m)
  unfolding insert
  insert-Above j k v [] h a = (h, tt)
  insert-Above j k v ((i, w) ∷ m) h a = ground (arith, insert-Above j k v m h a.1)

  -- An assignment keeps the keys in order.
  pub insert-IsSorted :
      (k : Bytes) (v : V) (m : OrderedMap V) → IsSorted m → IsSorted (insert k v m)
  unfolding insert
  insert-IsSorted k v [] s = (tt, tt)
  insert-IsSorted k v ((j, w) ∷ m) s = ground (
    arith,
    eq_of_compare k j,
    Above-trans k j m,
    lt_of_gt k j,
    insert-Above j k v m,
    insert-IsSorted k v m s.1,
  )

  erase-Above : (j k : Bytes) (m : OrderedMap V) → Above j m → Above j (erase k m)
  unfolding erase
  erase-Above j k [] a = tt
  erase-Above j k ((i, w) ∷ m) a = ground (arith, erase-Above j k m a.1)

  pub erase-IsSorted : (k : Bytes) (m : OrderedMap V) → IsSorted m → IsSorted (erase k m)
  unfolding erase
  erase-IsSorted k [] s = tt
  erase-IsSorted k ((j, w) ∷ m) s = ground (arith, erase-Above j k m s.0, erase-IsSorted k m s.1)

  pub find-Above : (k : Bytes) (m : OrderedMap V) → Above k m → find k m ≡ none
  unfolding find
  find-Above k [] a = refl
  find-Above k ((j, w) ∷ m) a = ground (arith, find-Above k m a.1)

  pub find-erase_self : (k : Bytes) (m : OrderedMap V) → IsSorted m → find k (erase k m) ≡ none
  unfolding find erase
  find-erase_self k [] s = refl
  find-erase_self k ((j, w) ∷ m) s =
      ground (arith, eq_of_compare k j, find-Above j m s.0, find-erase_self k m s.1)

  pub find-erase_ne : (k j : Bytes) (m : OrderedMap V) → j ≢ k → find j (erase k m) ≡ find j m
  unfolding find erase
  find-erase_ne k j [] ne = refl
  find-erase_ne k j ((i, w) ∷ m) ne =
      ground (arith, eq_of_compare k i, eq_of_compare j i, find-erase_ne k j m ne)
