-- ===== src/Semaphore.antt =====
-- virtualagent/shared/bin_sem.{h,c}: a set of System V semaphores, of which the first one stops and
-- starts the virtual hosts. A set is the list of its values. An operation on a semaphore that the
-- set does not hold fails in the kernel, and the code then calls `exit(1)`.
pub mod Laws
pub mod Tests
use virtual_time_synchroniza.Prelude.{
  ℕ, zero, suc, ◌+◌, ◌-◌, ◌≤◌, Bool, List, [], ◌∷◌, Option, none, some, Outcome, done, crash, exits,
  if◌then◌else◌, ◌==◌, ltb, leb, ◌||◌, set, length,
}

abbrev pub sem_go : ℕ
sem_go = 0

abbrev pub sem_stop : ℕ
sem_stop = 1

-- `VIRHOST`, the index of the semaphore that the hosts wait on.
abbrev pub vir_host : ℕ
vir_host = 0

-- `NUMOFSEM_GOSTOP`
abbrev pub num_of_sem_gostop : ℕ
num_of_sem_gostop = 4

-- The greatest value of a semaphore on Linux.
abbrev pub sem_max : ℕ
sem_max = 32767

abbrev pub Semaphores : Type 0
Semaphores = List ℕ

unfoldable pub value : Semaphores → ℕ → Option ℕ
value [] i = none
value (v ∷ vs) zero = some v
value (v ∷ vs) (suc i) = value vs i

unfoldable pub semaphore_setval : Semaphores → ℕ → ℕ → Outcome Semaphores
semaphore_setval s index v = elim (value s index) [
  | none ↦ crash (exits 1)
  | some old ↦ if leb v sem_max then done (set s index v) else crash (exits 1)
]

-- A `semop` call that the kernel lets through, or holds until the value changes.
pub data Semop : Type 0 where
  passed : Semaphores → Semop
  blocked : Semop

unfoldable pub semaphore_wait : Semaphores → ℕ → Outcome Semop
semaphore_wait s index = elim (value s index) [
  | none ↦ crash (exits 1)
  | some v ↦ done (if v == 0 then blocked else passed (set s index (v - 1)))
]

unfoldable pub semaphore_post : Semaphores → ℕ → Outcome Semop
semaphore_post s index = elim (value s index) [
  | none ↦ crash (exits 1)
  | some v ↦ if ltb v sem_max then done (passed (set s index (v + 1))) else crash (exits 1)
]

-- Also `semaphore_waitforzero_maskallsig`, whose signal mask is not modelled.
unfoldable pub semaphore_waitforzero : Semaphores → ℕ → Outcome Semop
semaphore_waitforzero s index = elim (value s index) [
  | none ↦ crash (exits 1)
  | some v ↦ done (if v == 0 then passed s else blocked)
]
