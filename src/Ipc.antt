-- ===== src/Ipc.antt =====
-- virtualagent/shared/qemu-timer.c (__ipc_create, __ipc_attach, __ipc_detach, __ipc_remove),
-- virtualagent/shared/bin_sem.c (create, attach, remove) and the keys of virtualagent/SharedMemory.hpp: how the
-- segments and the semaphores come and go. The system is an interface: what it holds by name is seen by `lookup`.
pub mod Segments
pub mod Creation
pub mod Lifecycle
mod Names
mod Tests
use virtual_time_synchroniza.Prelude.{
  ℕ, ◌≡◌, ◌≢◌, Bool, true, false, Option, none, some, Outcome, done, crash, exits, ◌>>=◌,
  if◌then◌else◌,
}
use virtual_time_synchroniza.Prelude.Int.{ℤ, pos, ltb_ℤ}
use virtual_time_synchroniza.Semaphore.{num_of_sem_gostop}

-- Shared memory and sets of semaphores have keys and identifiers of their own.
pub data Kind : Type 0 where
  segment semaphore_set : Kind

-- What a process sees of a shared memory segment or a set of semaphores: its identifier, and whether the
-- process may remove it, as its creator, its owner, or with privileges.
pub record Object : Type 0 where
  pub identifier : ℤ
  pub removable : Bool

-- The system's calls on a state `K`.
pub record SystemV {ℓ} (K : Type ℓ) : Type ℓ where
  -- `shmget` and `semget`; the flag is `IPC_CREAT`. An identifier below zero is an error.
  pub get : Kind → ℕ → ℕ → Bool → K → K × ℤ
  -- `shmat`; none is the address -1.
  pub shmat : ℤ → K → Option (K × ℕ)
  pub shmdt : ℕ → K → K
  -- `shmctl` and `semctl` with `IPC_RMID`; none is an error.
  pub rmid : Kind → ℤ → K → Option K
  -- What stands under a key; key 0 is `IPC_PRIVATE`, under which nothing is found.
  pub lookup : K → Kind → ℕ → Option Object

-- What the manual pages of Linux say of the calls. A key other than 0 names the object that the call gives,
-- which the process may remove if the call has created it. Who may not remove an object gets EPERM, and
-- nothing is said of that call here. Behind `IPC_RMID` the key is free, also where a segment lives on until
-- the last process detaches it.
pub record IsSystemV {ℓ} {K : Type ℓ} (sys : SystemV K) : Type ℓ where
  pub get_named :
      (kind : Kind) (key size : ℕ) (create : Bool) (k : K)
      → key ≢ 0
      → ltb_ℤ (sys.get kind key size create k).1 (pos 0) ≡ false
      → (b : Bool) × (sys.lookup (sys.get kind key size create k).0 kind key
          ≡ some (record { identifier = (sys.get kind key size create k).1; removable = b }))
        × (sys.lookup k kind key ≡ none → b ≡ true)
  pub get_others :
      (kind : Kind) (key size : ℕ) (create : Bool) (k : K) (kind' : Kind) (key' : ℕ)
      → ¬ ((kind' ≡ kind) × (key' ≡ key))
      → sys.lookup (sys.get kind key size create k).0 kind' key' ≡ sys.lookup k kind' key'
  pub get_missing :
      (kind : Kind) (key size : ℕ) (k : K)
      → key ≢ 0
      → sys.lookup k kind key ≡ none
      → ltb_ℤ (sys.get kind key size false k).1 (pos 0) ≡ true
  pub shmat_keeps :
      (id : ℤ) (k k' : K) (address : ℕ) (kind : Kind) (key : ℕ)
      → sys.shmat id k ≡ some (k', address)
      → sys.lookup k' kind key ≡ sys.lookup k kind key
  pub shmdt_keeps :
      (address : ℕ) (k : K) (kind : Kind) (key : ℕ)
      → sys.lookup (sys.shmdt address k) kind key ≡ sys.lookup k kind key
  pub rmid_named :
      (kind : Kind) (key : ℕ) (id : ℤ) (k : K)
      → sys.lookup k kind key ≡ some (record { identifier = id; removable = true })
      → (k' : K) × (sys.rmid kind id k ≡ some k') × (sys.lookup k' kind key ≡ none)
  pub rmid_others :
      (kind : Kind) (id : ℤ) (k k' : K) (kind' : Kind) (key' : ℕ)
      → sys.rmid kind id k ≡ some k'
      → ¬ ((kind' ≡ kind) × (o : Object) × (sys.lookup k kind' key' ≡ some o) × (o.identifier ≡ id))
      → sys.lookup k' kind' key' ≡ sys.lookup k kind' key'
  pub unique :
      (k : K) (kind : Kind) (key key' : ℕ) (o o' : Object)
      → sys.lookup k kind key ≡ some o
      → sys.lookup k kind key' ≡ some o'
      → o.identifier ≡ o'.identifier
      → key ≡ key'

-- `TimersStateKey`
pub record TimersStateKey : Type 0 where
  pub shmkey_timers_state : ℕ
  pub shmkey_tdf : ℕ
  pub shmkey_simulators_state : ℕ
  pub semkey_gostop : ℕ

-- The keys of SharedMemory.hpp.
abbrev pub tskey : TimersStateKey
tskey = record {
  shmkey_timers_state = 528;
  shmkey_tdf = 529;
  shmkey_simulators_state = 527;
  semkey_gostop = 331;
}

-- The identifier and the address of a segment.
pub record Attached : Type 0 where
  pub shmid : ℤ
  pub address : ℕ

-- The global variables of qemu-timer.c.
pub record Handles : Type 0 where
  pub timers_state : Attached
  pub tdf : Attached
  pub simulators_state : Attached
  pub semid_gostop : ℤ

-- The sizes of `TimersState`, `long double` and `SimulatorsState` on x86-64.
abbrev pub sizeof_timers_state : ℕ
sizeof_timers_state = 72

abbrev pub sizeof_tdf : ℕ
sizeof_tdf = 16

abbrev pub sizeof_simulators_state : ℕ
sizeof_simulators_state = 16

module _ {ℓ} {K : Type ℓ} (sys : SystemV K) where
  -- `shmget` and `shmat`; either error ends the process.
  unfoldable pub open_segment : Bool → ℕ → ℕ → K → Outcome (K × Attached)
  open_segment create key size k =
      let (k', id) = sys.get segment key size create k in
      if ltb_ℤ id (pos 0) then crash (exits 2) else elim (sys.shmat id k') [
        | none ↦ crash (exits 2)
        | some at ↦ done (at.0, record { shmid = id; address = at.1 })
      ]

  unfoldable pub semaphore_create : ℕ → ℕ → K → Outcome (K × ℤ)
  semaphore_create sem_key num_semaphores k =
      let (k', id) = sys.get semaphore_set sem_key num_semaphores true k in
      if ltb_ℤ id (pos 0) then crash (exits 1) else done (k', id)

  unfoldable pub semaphore_attach : ℕ → ℕ → K → Outcome (K × ℤ)
  semaphore_attach sem_key num_semaphores k =
      let (k', id) = sys.get semaphore_set sem_key num_semaphores false k in
      if ltb_ℤ id (pos 0) then crash (exits 1) else done (k', id)

  unfoldable pub semaphore_remove : ℤ → K → Outcome K
  semaphore_remove semid k = elim (sys.rmid semaphore_set semid k) [
    | none ↦ crash (exits 1)
    | some k' ↦ done k'
  ]

  unfoldable pub ipc_create : TimersStateKey → K → Outcome (K × Handles)
  ipc_create ts k = do
    (k1, timers_state) ← open_segment true ts.shmkey_timers_state sizeof_timers_state k
    (k2, tdf) ← open_segment true ts.shmkey_tdf sizeof_tdf k1
    (k3, simulators_state) ← open_segment true ts.shmkey_simulators_state sizeof_simulators_state k2
    (k4, semid_gostop) ← semaphore_create ts.semkey_gostop num_of_sem_gostop k3
    done (
      k4,
      record {
        timers_state = timers_state;
        tdf = tdf;
        simulators_state = simulators_state;
        semid_gostop = semid_gostop;
      },
    )

  unfoldable pub ipc_attach : TimersStateKey → K → Outcome (K × Handles)
  ipc_attach ts k = do
    (k1, timers_state) ← open_segment false ts.shmkey_timers_state sizeof_timers_state k
    (k2, tdf) ← open_segment false ts.shmkey_tdf sizeof_tdf k1
    (k3, simulators_state) ←
        open_segment false ts.shmkey_simulators_state sizeof_simulators_state k2
    (k4, semid_gostop) ← semaphore_attach ts.semkey_gostop num_of_sem_gostop k3
    done (
      k4,
      record {
        timers_state = timers_state;
        tdf = tdf;
        simulators_state = simulators_state;
        semid_gostop = semid_gostop;
      },
    )

  unfoldable pub ipc_detach : Handles → K → K
  ipc_detach h k =
      sys.shmdt h.simulators_state.address
        (sys.shmdt h.tdf.address (sys.shmdt h.timers_state.address k))

  -- `shmctl`, of which the code does not look at the result.
  unfoldable pub remove_segment : Attached → K → K
  remove_segment a k = elim (sys.rmid segment a.shmid k) [ none ↦ k | some k' ↦ k' ]

  -- It removes two of the three segments.
  unfoldable pub ipc_remove : Handles → K → Outcome K
  ipc_remove h k =
      let k1 = remove_segment h.timers_state (sys.shmdt h.timers_state.address k) in
      let k2 = sys.shmdt h.simulators_state.address (sys.shmdt h.tdf.address k1) in
      semaphore_remove h.semid_gostop (remove_segment h.tdf k2)

  unfoldable pub timers_state_attach : TimersStateKey → K → Outcome (K × Handles)
  unfolding ipc_attach
  timers_state_attach = ipc_attach

  unfoldable pub timers_state_detach : Handles → K → K
  unfolding ipc_detach
  timers_state_detach = ipc_detach

  -- So does the destructor of SharedMemory.
  unfoldable pub timers_state_remove : Handles → K → Outcome K
  unfolding ipc_remove
  timers_state_remove = ipc_remove
