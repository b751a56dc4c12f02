-- ===== src/OrderedMap/Order.antt =====
-- The order of the keys is a strict total order.
use Prim.Native.Nat.{Ordering}
use virtual_time_synchroniza.Prelude.{Bytes, [], ◌∷◌, ◌≡◌, ◌≢◌, ◌⊎◌, inl, inr, refl, arith}
use virtual_time_synchroniza.OrderedMap.{compare_bytes}

pub eq_of_compare : (s t : Bytes) → compare_bytes s t ≡ Ordering.eq → s ≡ t
unfolding compare_bytes
eq_of_compare [] [] h = refl
eq_of_compare [] (b ∷ t) h = ground arith
eq_of_compare (a ∷ s) [] h = ground arith
eq_of_compare (a ∷ s) (b ∷ t) h = ground (arith, eq_of_compare s t)

pub compare_self : (s : Bytes) → compare_bytes s s ≡ Ordering.eq
unfolding compare_bytes
compare_self [] = refl
compare_self (a ∷ s) = ground (arith, compare_self s)

pub lt_trans :
    (s t u : Bytes)
    → compare_bytes s t ≡ Ordering.lt
    → compare_bytes t u ≡ Ordering.lt
    → compare_bytes s u ≡ Ordering.lt
unfolding compare_bytes
lt_trans [] [] u h k = ground arith
lt_trans [] (b ∷ t) [] h k = ground arith
lt_trans [] (b ∷ t) (c ∷ u) h k = refl
lt_trans (a ∷ s) [] u h k = ground arith
lt_trans (a ∷ s) (b ∷ t) [] h k = ground arith
lt_trans (a ∷ s) (b ∷ t) (c ∷ u) h k = ground (arith, lt_trans s t u)

pub lt_of_gt : (s t : Bytes) → compare_bytes s t ≡ Ordering.gt → compare_bytes t s ≡ Ordering.lt
unfolding compare_bytes
lt_of_gt [] [] h = ground arith
lt_of_gt [] (b ∷ t) h = ground arith
lt_of_gt (a ∷ s) [] h = refl
lt_of_gt (a ∷ s) (b ∷ t) h = ground (arith, lt_of_gt s t)

-- Two keys are equal, or one is less than the other.
pub data Compared (k j : Bytes) : Type 0 where
  less : compare_bytes k j ≡ Ordering.lt → Compared k j
  same : compare_bytes k j ≡ Ordering.eq → Compared k j
  more : compare_bytes k j ≡ Ordering.gt → Compared k j

Compared-by : (k j : Bytes) (o : Ordering) → compare_bytes k j ≡ o → Compared k j
Compared-by k j Ordering.lt e = less e
Compared-by k j Ordering.eq e = same e
Compared-by k j Ordering.gt e = more e

pub compared : (k j : Bytes) → Compared k j
compared k j = Compared-by k j (compare_bytes k j) refl

-- Two keys are the same or not.
pub same_or_not : (s t : Bytes) → (s ≡ t) ⊎ (s ≢ t)
same_or_not s t = elim (compared s t) [
  | less e ↦ inr λ at. absurd (cc (e, at, compare_self t))
  | same e ↦ inl (eq_of_compare s t e)
  | more e ↦ inr λ at. absurd (cc (e, at, compare_self t))
]
