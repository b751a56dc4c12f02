-- ===== src/OrderedMap.antt =====
-- `std::map<std::string, V>`: an association list in the order of its keys, which are compared byte
-- by byte. `insert` is the assignment `m[k] = v`.
pub mod Order
pub mod Laws
pub mod Canonical
use Prim.Native.Nat.{compare, Ordering}
use virtual_time_synchroniza.Prelude.{
  ℕ, Bytes, List, [], ◌∷◌, Option, none, some, Bool, true, false, All, ◌≡◌,
}

unfoldable pub compare_bytes : Bytes → Bytes → Ordering
compare_bytes [] [] = Ordering.eq
compare_bytes [] (b ∷ t) = Ordering.lt
compare_bytes (a ∷ s) [] = Ordering.gt
compare_bytes (a ∷ s) (b ∷ t) = elim (compare a b) [
  | Ordering.lt ↦ Ordering.lt
  | Ordering.gt ↦ Ordering.gt
  | Ordering.eq ↦ compare_bytes s t
]

abbrev pub OrderedMap {ℓ} : Type ℓ → Type ℓ
OrderedMap V = List (Bytes × V)

module _ {ℓ} {V : Type ℓ} where
  unfoldable pub find : Bytes → OrderedMap V → Option V
  find k [] = none
  find k ((j, w) ∷ m) = elim (compare_bytes k j) [ Ordering.eq ↦ some w | _ ↦ find k m ]

  unfoldable pub insert : Bytes → V → OrderedMap V → OrderedMap V
  insert k v [] = (k, v) ∷ []
  insert k v ((j, w) ∷ m) = elim (compare_bytes k j) [
    | Ordering.lt ↦ (k, v) ∷ (j, w) ∷ m
    | Ordering.eq ↦ (k, v) ∷ m
    | Ordering.gt ↦ (j, w) ∷ insert k v m
  ]

  unfoldable pub erase : Bytes → OrderedMap V → OrderedMap V
  erase k [] = []
  erase k ((j, w) ∷ m) = elim (compare_bytes k j) [ Ordering.eq ↦ m | _ ↦ (j, w) ∷ erase k m ]

  -- The keys rise along the list, so that none stands twice.
  abbrev pub IsSorted : OrderedMap V → Type 0
  IsSorted [] = Unit
  IsSorted ((k, v) ∷ m) = All (λ e. compare_bytes k e.0 ≡ Ordering.lt) m × IsSorted m
