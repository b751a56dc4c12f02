-- ===== src/OrderedMap/Canonical.antt =====
-- A map is determined by what `find` sees of it: the order of the keys leaves one list for each content.
use Prim.Native.Nat.{Ordering}
use virtual_time_synchroniza.Prelude.{
  Bytes, [], ◌∷◌, none, some, ◌≡◌, refl, sym, ◌∙◌, arith, some_injective,
}
use virtual_time_synchroniza.OrderedMap.{compare_bytes, OrderedMap, find, IsSorted}
use virtual_time_synchroniza.OrderedMap.Order.{
  compared, less, same, more, eq_of_compare, compare_self, lt_of_gt,
}
use virtual_time_synchroniza.OrderedMap.Laws.{Above, Above-trans, find-Above}

module _ {ℓ} {V : Type ℓ} where
  find_first : (k : Bytes) (v : V) (m : OrderedMap V) → find k ((k, v) ∷ m) ≡ some v
  unfolding find
  find_first k v m = rw (find, compare_self k) refl

  -- A key below all keys of a map is not found in it.
  find_below :
      (k j : Bytes) (w : V) (m : OrderedMap V)
      → compare_bytes k j ≡ Ordering.lt
      → Above j m
      → find k ((j, w) ∷ m) ≡ none
  unfolding find
  find_below k j w m h a = rw (find, h) (find-Above k m (Above-trans k j m h a))

  -- What `find` sees behind the first entry.
  find_tail :
      (i k : Bytes) (v w : V) (m n : OrderedMap V)
      → Above k m
      → Above k n
      → find i ((k, v) ∷ m) ≡ find i ((k, w) ∷ n)
      → find i m ≡ find i n
  unfolding find
  find_tail i k v w m n a b h = elim (compared i k) [
    | less e ↦ ground (arith, h, e)
    | same e ↦ let at = eq_of_compare i k e in rw at (find-Above k m a ∙ sym (find-Above k n b))
    | more e ↦ ground (arith, h, e)
  ]

  -- Two maps in which `find` sees the same are the same list.
  pub eq_of_find :
      (m n : OrderedMap V) → IsSorted m → IsSorted n → ((k : Bytes) → find k m ≡ find k n) → m ≡ n
  eq_of_find [] [] s t h = refl
  eq_of_find [] ((j, w) ∷ n) s t h =
      absurd (let seen = h j ∙ find_first j w n in unfold find in ground (arith, seen))
  eq_of_find ((k, v) ∷ m) [] s t h =
      absurd (let seen = sym (h k) ∙ find_first k v m in unfold find in ground (arith, seen))
  eq_of_find ((k, v) ∷ m) ((j, w) ∷ n) s t h = elim (compared k j) [
    | less e ↦ absurd (cc (find_first k v m, h k, find_below k j w n e t.0))
    | more e ↦ absurd (cc (find_first j w n, h j, find_below j k v m (lt_of_gt k j e) s.0))
    | same e ↦
        let at = eq_of_compare k j e in
        let both : (i : Bytes) → find i ((k, v) ∷ m) ≡ find i ((k, w) ∷ n) =
          λ i. h i ∙ rw at refl in
        let value = some_injective v w (sym (find_first k v m) ∙ both k ∙ find_first k w n) in
        let above : Above k n = rw at t.0 in
        let rest = eq_of_find m n s.1 t.1 λ i. find_tail i k v w m n s.0 above (both i) in
        rw (at, value, rest) refl
  ]
