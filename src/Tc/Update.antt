-- ===== src/Tc/Update.antt =====
-- `updateInterfaceAttribute` against its specification.
use virtual_time_synchroniza.Prelude.{
  ◌≡◌, refl, Bytes, [], ◌∷◌, ◌++◌, append_assoc, Option, none, some, done, arith, All,
  if◌then◌else◌, All-append, Bool, true, false,
}
use Prim.Native.Nat.{Ordering}
use virtual_time_synchroniza.Floats.{Floats}
use virtual_time_synchroniza.OrderedMap.{OrderedMap, IsSorted, compare_bytes}
use virtual_time_synchroniza.OrderedMap
use virtual_time_synchroniza.OrderedMap.Order.{eq_of_compare, compare_self}
use virtual_time_synchroniza.IfaceTable.{InterfaceAttributeEntry, InterfaceAttributeTable}
use virtual_time_synchroniza.IfaceTable
use virtual_time_synchroniza.IfaceTable.Laws.{NotNull, IsValid}
use virtual_time_synchroniza.Tc.{
  Commands, change_interface_attribute, delete_interface_attribute, update_loop,
  update_interface_attribute,
}

-- The entries that are to be kept.
abbrev pub kept : InterfaceAttributeTable → InterfaceAttributeTable
kept [] = []
kept ((k, none) ∷ m) = (k, none) ∷ kept m
kept ((k, some e) ∷ m) = if e.flag_keep then (k, some e) ∷ kept m else kept m

abbrev Before : Bytes → InterfaceAttributeTable → Type 0
Before k = All (λ p. compare_bytes p.0 k ≡ Ordering.lt)

erase_middle :
    (pre it : InterfaceAttributeTable) (k : Bytes) (w : Option InterfaceAttributeEntry)
    → Before k pre
    → OrderedMap.erase k (pre ++ ((k, w) ∷ it)) ≡ pre ++ it
unfolding OrderedMap.erase
erase_middle [] it k w b = ground (arith, compare_self k)
erase_middle ((j, v) ∷ pre) it k w b =
    ground (arith, eq_of_compare k j, compare_self j, erase_middle pre it k w b.1)

-- Every key of the first table stands before every key of the second.
abbrev AllBefore : InterfaceAttributeTable → InterfaceAttributeTable → Type 0
AllBefore pre [] = Unit
AllBefore pre ((k, w) ∷ it) = Before k pre × AllBefore pre it

AllBefore-snoc :
    (pre it : InterfaceAttributeTable) (k : Bytes) (w : Option InterfaceAttributeEntry)
    → AllBefore pre it
    → All (λ e. compare_bytes k e.0 ≡ Ordering.lt) it
    → AllBefore (pre ++ ((k, w) ∷ [])) it
AllBefore-snoc pre [] k w b a = tt
AllBefore-snoc pre ((j, v) ∷ it) k w b a =
    (All-append pre ((k, w) ∷ []) _ (a.0, tt) b.0, AllBefore-snoc pre it k w b.1 a.1)

AllBefore-nil : (it : InterfaceAttributeTable) → AllBefore [] it
AllBefore-nil [] = tt
AllBefore-nil ((k, w) ∷ it) = (tt, AllBefore-nil it)

module _ ⦃fl : Floats⦄ where
  open fl use {LongDouble}

  -- For each entry in the order of the names: the commands that change it, or the one that deletes
  -- it.
  abbrev pub commands : LongDouble → InterfaceAttributeTable → Commands
  commands tdf [] = []
  commands tdf ((k, none) ∷ m) = commands tdf m
  commands tdf ((k, some e) ∷ m) =
      (if e.flag_keep
        then change_interface_attribute k e.rate e.delay tdf
        else delete_interface_attribute k)
      ++ commands tdf m

  update_loop_lem :
      (tdf : LongDouble) (pre it : InterfaceAttributeTable)
      → AllBefore pre it
      → IsSorted it
      → All NotNull it
      → update_loop tdf it (pre ++ it) ≡ done (pre ++ kept it, commands tdf it)
  unfolding update_loop IfaceTable.erase
  update_loop_lem tdf pre [] b s n = refl
  update_loop_lem tdf pre ((k, none) ∷ it) b s n = absurd n.0
  update_loop_lem tdf pre ((k, some e) ∷ it) b s n =
      let entry : InterfaceAttributeTable = (k, some e) ∷ [] in
      ground (
        arith,
        erase_middle pre it k (some e) b.0,
        update_loop_lem tdf pre it b.1 s.1 n.1,
        update_loop_lem tdf (pre ++ entry) it (AllBefore-snoc pre it k (some e) b.1 s.0) s.1 n.1,
        append_assoc pre entry it,
        append_assoc pre entry (kept it),
      )

  -- On a valid table the update keeps exactly the entries whose flag says so, unchanged and in their
  -- order, and runs for each entry of the old table its commands, one entry after the other in the
  -- order of the names. The erasures do not disturb the iteration.
  pub update_interface_attribute_lem :
      (tdf : LongDouble) (table : InterfaceAttributeTable)
      → IsValid table
      → update_interface_attribute tdf table ≡ done (kept table, commands tdf table)
  unfolding update_interface_attribute
  update_interface_attribute_lem tdf table v =
      update_loop_lem tdf [] table (AllBefore-nil table) v.sorted v.no_null

if_both {ℓ} :
    (P : InterfaceAttributeTable → Type ℓ) (b : Bool) {x y : InterfaceAttributeTable}
    → P x
    → P y
    → P (if b then x else y)
if_both P true p q = p
if_both P false p q = q

kept-All {ℓ} :
    (P : Bytes × Option InterfaceAttributeEntry → Type ℓ) (m : InterfaceAttributeTable)
    → All P m
    → All P (kept m)
kept-All P [] h = tt
kept-All P ((k, none) ∷ m) h = (h.0, kept-All P m h.1)
kept-All P ((k, some e) ∷ m) h =
    if_both (All P) e.flag_keep (h.0, kept-All P m h.1) (kept-All P m h.1)

kept-IsSorted : (m : InterfaceAttributeTable) → IsSorted m → IsSorted (kept m)
kept-IsSorted [] s = tt
kept-IsSorted ((k, none) ∷ m) s = (kept-All _ m s.0, kept-IsSorted m s.1)
kept-IsSorted ((k, some e) ∷ m) s =
    if_both IsSorted e.flag_keep (kept-All _ m s.0, kept-IsSorted m s.1) (kept-IsSorted m s.1)

-- The entries that are kept make a valid table.
pub kept-IsValid : (m : InterfaceAttributeTable) → IsValid m → IsValid (kept m)
kept-IsValid m v = record {
  sorted = kept-IsSorted m v.sorted;
  no_null = kept-All NotNull m v.no_null;
}
