-- ===== src/Ipc/Names.antt =====
-- A system that knows the names alone, in which an identifier is its key: one model of `SystemV`, in which the
-- tests run and the laws hold.
use virtual_time_synchroniza.Prelude.{
  ℕ, zero, suc, ◌≢◌, ◌≡◌, refl, sym, ap, ◌∙◌, Bool, true, false, ◌&&◌, ◌==◌, Option, none, some,
  some_injective, if◌then◌else◌, arith,
}
use virtual_time_synchroniza.Prelude.Int.{ℤ, pos, negsuc, ltb_ℤ}
use virtual_time_synchroniza.Ipc.{SystemV, IsSystemV, Object, Kind, segment, semaphore_set}

-- Which names exist, and whether the process may remove what they name.
abbrev pub Names : Type 0
Names = Kind → ℕ → Option Bool

abbrev pub same_kind : Kind → Kind → Bool
same_kind segment segment = true
same_kind semaphore_set semaphore_set = true
same_kind kind kind' = false

abbrev pub put : Kind → ℕ → Option Bool → Names → Names
put kind key o k = λ kind' key'. if same_kind kind' kind && (key' == key) then o else k kind' key'

-- `IPC_RMID` on what a key names: EINVAL, EPERM, or the object is gone.
abbrev pub removal : Kind → ℕ → Option Bool → Names → Option Names
removal kind key none k = none
removal kind key (some false) k = none
removal kind key (some true) k = some (put kind key none k)

abbrev pub take_off : Kind → ℤ → Names → Option Names
take_off kind (pos key) k = removal kind key (k kind key) k
take_off kind (negsuc n) k = none

abbrev pub object : ℕ → Option Bool → Option Object
object key none = none
object key (some b) = some (record { identifier = pos key; removable = b })

abbrev pub found : Names → Kind → ℕ → Option Object
found k kind key = object key (k kind key)

-- A key that names nothing: an error, or an object of the process's own. Key 0 always makes a new object,
-- which has no name.
abbrev pub missing : Kind → ℕ → Bool → Names → Names × ℤ
missing kind key true k = (put kind key (some true) k, pos key)
missing kind key false k = (k, negsuc 0)

abbrev pub given : Kind → ℕ → Bool → Option Bool → Names → Names × ℤ
given kind key create none k = missing kind key create k
given kind key create (some b) k = (k, pos key)

abbrev pub named_get : Kind → ℕ → Bool → Names → Names × ℤ
named_get kind zero create k = (k, pos 0)
named_get kind (suc n) create k = given kind (suc n) create (k kind (suc n)) k

abbrev pub small : SystemV Names
small = record {
  get = λ kind key size create k. named_get kind key create k;
  shmat = λ id k. some (k, 0);
  shmdt = λ address k. k;
  rmid = take_off;
  lookup = found;
}

same_kind_self : (kind : Kind) → same_kind kind kind ≡ true
same_kind_self segment = refl
same_kind_self semaphore_set = refl

same_kind-eq : (kind kind' : Kind) → same_kind kind kind' ≡ true → kind ≡ kind'
same_kind-eq kind kind' e = ground arith

put_other :
    (kind : Kind) (key : ℕ) (o : Option Bool) (k : Names) (kind' : Kind) (key' : ℕ)
    → ¬ ((kind' ≡ kind) × (key' ≡ key))
    → put kind key o k kind' key' ≡ k kind' key'
put_other kind key o k kind' key' ne = ground (arith, same_kind-eq kind' kind)

put_self : (kind : Kind) (key : ℕ) (o : Option Bool) (k : Names) → put kind key o k kind key ≡ o
put_self kind key o k = ground (arith, same_kind_self kind)

given_named :
    (kind : Kind) (key : ℕ) (create : Bool) (o : Option Bool) (k : Names)
    → k kind key ≡ o
    → ltb_ℤ (given kind key create o k).1 (pos 0) ≡ false
    → (b : Bool) × (found (given kind key create o k).0 kind key
        ≡ some (record { identifier = (given kind key create o k).1; removable = b }))
      × (found k kind key ≡ none → b ≡ true)
given_named kind key true none k e h =
    (true, ap (object key) (put_self kind key (some true) k), λ free. refl)
given_named kind key false none k e h = absurd (ground (arith, h))
given_named kind key create (some b) k e h =
    (b, ap (object key) e, λ free. absurd (ground (arith, rw e at free)))

get_named :
    (kind : Kind) (key : ℕ) (create : Bool) (k : Names)
    → key ≢ 0
    → ltb_ℤ (named_get kind key create k).1 (pos 0) ≡ false
    → (b : Bool) × (found (named_get kind key create k).0 kind key
        ≡ some (record { identifier = (named_get kind key create k).1; removable = b }))
      × (found k kind key ≡ none → b ≡ true)
get_named kind zero create k ne h = absurd (ne refl)
get_named kind (suc n) create k ne h = given_named kind (suc n) create _ k refl h

given_others :
    (kind : Kind) (key : ℕ) (create : Bool) (o : Option Bool) (k : Names) (kind' : Kind) (key' : ℕ)
    → ¬ ((kind' ≡ kind) × (key' ≡ key))
    → found (given kind key create o k).0 kind' key' ≡ found k kind' key'
given_others kind key true none k kind' key' ne =
    ap (object key') (put_other kind key (some true) k kind' key' ne)
given_others kind key false none k kind' key' ne = refl
given_others kind key create (some b) k kind' key' ne = refl

get_others :
    (kind : Kind) (key : ℕ) (create : Bool) (k : Names) (kind' : Kind) (key' : ℕ)
    → ¬ ((kind' ≡ kind) × (key' ≡ key))
    → found (named_get kind key create k).0 kind' key' ≡ found k kind' key'
get_others kind zero create k kind' key' ne = refl
get_others kind (suc n) create k kind' key' ne = given_others kind (suc n) create _ k kind' key' ne

object-none : (key : ℕ) (o : Option Bool) → object key o ≡ none → o ≡ none
object-none key o e = ground (arith, e)

get_missing :
    (kind : Kind) (key : ℕ) (k : Names)
    → key ≢ 0
    → found k kind key ≡ none
    → ltb_ℤ (named_get kind key false k).1 (pos 0) ≡ true
get_missing kind zero k ne e = absurd (ne refl)
get_missing kind (suc n) k ne e = rw (object-none (suc n) _ e) refl

object-some :
    (key : ℕ) (o : Option Bool) (x : Object)
    → object key o ≡ some x
    → (o ≡ some x.removable) × (pos key ≡ x.identifier)
object-some key o x e = ground (arith, e)

rmid_named :
    (kind : Kind) (key : ℕ) (id : ℤ) (k : Names)
    → found k kind key ≡ some (record { identifier = id; removable = true })
    → (k' : Names) × (take_off kind id k ≡ some k') × (found k' kind key ≡ none)
rmid_named kind key id k e =
    let (on, same) = object-some key (k kind key) _ e in
    rw (← same) (put kind key none k, rw on refl, ap (object key) (put_self kind key none k))

removal_others :
    (kind : Kind) (key : ℕ) (o : Option Bool) (k k' : Names) (kind' : Kind) (key' : ℕ)
    → removal kind key o k ≡ some k'
    → ¬ ((kind' ≡ kind) × (key' ≡ key))
    → found k' kind' key' ≡ found k kind' key'
removal_others kind key none k k' kind' key' e ne = absurd (ground (arith, e))
removal_others kind key (some false) k k' kind' key' e ne = absurd (ground (arith, e))
removal_others kind key (some true) k k' kind' key' e ne =
    ap (λ j. found j kind' key') (sym (some_injective _ k' e))
    ∙ ap (object key') (put_other kind key none k kind' key' ne)

removal-some :
    (kind : Kind) (key : ℕ) (o : Option Bool) (k k' : Names)
    → removal kind key o k ≡ some k'
    → o ≡ some true
removal-some kind key none k k' e = absurd (ground (arith, e))
removal-some kind key (some false) k k' e = absurd (ground (arith, e))
removal-some kind key (some true) k k' e = refl

rmid_others :
    (kind : Kind) (id : ℤ) (k k' : Names) (kind' : Kind) (key' : ℕ)
    → take_off kind id k ≡ some k'
    → ¬ ((kind' ≡ kind) × (o : Object) × (found k kind' key' ≡ some o) × (o.identifier ≡ id))
    → found k' kind' key' ≡ found k kind' key'
rmid_others kind (pos key) k k' kind' key' e ne =
    let on = removal-some kind key (k kind key) k k' e in
    removal_others kind key (k kind key) k k' kind' key' e (λ (p, q).
      ne (p, record { identifier = pos key; removable = true }, rw (p, q, on) refl, refl))
rmid_others kind (negsuc n) k k' kind' key' e ne = absurd (ground (arith, e))

pos_eq : (a b : ℕ) → pos a ≡ pos b → a ≡ b
pos_eq a b e = ground (arith, e)

pub small-IsSystemV : IsSystemV small
small-IsSystemV = record {
  get_named = λ kind key size create k ne h. get_named kind key create k ne h;
  get_others = λ kind key size create k kind' key' ne. get_others kind key create k kind' key' ne;
  get_missing = λ kind key size k ne e. get_missing kind key k ne e;
  shmat_keeps = λ id k k' address kind key e.
      ap (λ s. found s.0 kind key) (sym (some_injective (k, 0) (k', address) e));
  shmdt_keeps = λ address k kind key. refl;
  rmid_named = rmid_named;
  rmid_others = rmid_others;
  unique = λ k kind key key' o o' e e' same.
      pos_eq key key' ((object-some key _ o e).1 ∙ same ∙ sym (object-some key' _ o' e').1);
}
