-- ===== src/IfaceTable/Laws.antt =====
-- When `setFlagKeep` succeeds and what it changes.
use virtual_time_synchroniza.Prelude.{
  ◌≡◌, ◌≢◌, refl, ◌⊎◌, inl, inr, Bool, Bytes, [], ◌∷◌, Option, none, some, Outcome, done, crash,
  null_pointer, arith, All,
}
use virtual_time_synchroniza.Prelude.Int.{ℤ}
use virtual_time_synchroniza.OrderedMap.{OrderedMap, IsSorted, find, insert}
use virtual_time_synchroniza.OrderedMap
use virtual_time_synchroniza.OrderedMap.Laws.{
  insert-IsSorted, erase-IsSorted, find-insert_self, find-insert_ne,
}
use virtual_time_synchroniza.IfaceTable.{
  InterfaceAttributeEntry, InterfaceAttributeTable, set, set_flag_keep,
}

abbrev pub NotNull : Bytes × Option InterfaceAttributeEntry → Type 0
NotNull (k, none) = ⊥
NotNull (k, some e) = Unit

pub record IsValid (m : InterfaceAttributeTable) : Type 0 where
  pub sorted : IsSorted m
  pub no_null : All NotNull m

insert-NotNull :
    (k : Bytes) (e : InterfaceAttributeEntry) (m : InterfaceAttributeTable)
    → All NotNull m
    → All NotNull (insert k (some e) m)
unfolding insert
insert-NotNull k e [] h = (tt, tt)
insert-NotNull k e ((j, w) ∷ m) h = ground (arith, insert-NotNull k e m h.1)

erase-NotNull :
    (k : Bytes) (m : InterfaceAttributeTable) → All NotNull m → All NotNull (OrderedMap.erase k m)
unfolding OrderedMap.erase
erase-NotNull k [] h = tt
erase-NotNull k ((j, w) ∷ m) h = ground (arith, erase-NotNull k m h.1)

pub insert-IsValid :
    (k : Bytes) (e : InterfaceAttributeEntry) (m : InterfaceAttributeTable)
    → IsValid m
    → IsValid (insert k (some e) m)
insert-IsValid k e m v = record {
  sorted = insert-IsSorted k (some e) m v.sorted;
  no_null = insert-NotNull k e m v.no_null;
}

pub erase-IsValid :
    (k : Bytes) (m : InterfaceAttributeTable) → IsValid m → IsValid (OrderedMap.erase k m)
erase-IsValid k m v = record {
  sorted = erase-IsSorted k m v.sorted;
  no_null = erase-NotNull k m v.no_null;
}

pub set-IsValid :
    (m : InterfaceAttributeTable) (name : Bytes) (rate delay : ℤ)
    → IsValid m
    → IsValid (set m name rate delay)
unfolding set
set-IsValid m name rate delay v = insert-IsValid name _ m v

pub find-NotNull :
    (name : Bytes) (m : InterfaceAttributeTable) → All NotNull m → find name m ≢ some none
unfolding find
find-NotNull name [] h = λ e. cc
find-NotNull name ((j, none) ∷ m) h = absurd h.0
find-NotNull name ((j, some e) ∷ m) h = ground (arith, find-NotNull name m h.1)

-- What `setFlagKeep` does to a valid table: for a name that the table does not hold it crashes; else
-- the entry gets the flag and keeps its rate and delay, every other entry stays as it is, and the
-- table stays valid.
abbrev pub Flags : InterfaceAttributeTable → Bytes → Bool → Outcome InterfaceAttributeTable → Type 0
Flags m name flag r =
    ((find name m ≡ none) × (r ≡ crash null_pointer))
    ⊎ ((e : InterfaceAttributeEntry) × (m' : InterfaceAttributeTable) × (find name m
          ≡ some (some e))
        × (r ≡ done m')
        × (find name m' ≡ some (some (record e { flag_keep = flag })))
        × ((j : Bytes) → j ≢ name → find j m' ≡ find j m)
        × IsValid m')

set_flag_keep_found :
    (m : InterfaceAttributeTable) (name : Bytes) (flag : Bool)
    (o : Option (Option InterfaceAttributeEntry))
    → IsValid m
    → find name m ≡ o
    → Flags m name flag (set_flag_keep m name flag)
unfolding set_flag_keep
set_flag_keep_found m name flag none v f = inl (f, rw (f, set_flag_keep))
set_flag_keep_found m name flag (some none) v f = absurd (find-NotNull name m v.no_null f)
set_flag_keep_found m name flag (some (some e)) v f = inr (
  e,
  insert name (some (record e { flag_keep = flag })) m,
  f,
  rw (f, set_flag_keep),
  find-insert_self name _ m,
  λ j ne. find-insert_ne name j _ m ne,
  insert-IsValid name _ m v,
)

-- `setFlagKeep` on a valid table either crashes, exactly where the name is not in the table, or
-- changes the flag of that one entry.
pub set_flag_keep_lem :
    (m : InterfaceAttributeTable) (name : Bytes) (flag : Bool)
    → IsValid m
    → Flags m name flag (set_flag_keep m name flag)
set_flag_keep_lem m name flag v = set_flag_keep_found m name flag (find name m) v refl
