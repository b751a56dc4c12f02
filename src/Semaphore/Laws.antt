-- ===== src/Semaphore/Laws.antt =====
-- How the go/stop semaphore holds the virtual hosts.
use virtual_time_synchroniza.Prelude.{
  ℕ, zero, suc, ◌≤◌, ◌<◌, ◌≡◌, refl, [], ◌∷◌, some, done, arith, set, length, if◌then◌else◌, ◌==◌,
}
use virtual_time_synchroniza.Semaphore.{
  Semaphores, value, sem_max, semaphore_setval, semaphore_waitforzero, passed, blocked,
}

value_found : (s : Semaphores) (i : ℕ) → i < length s → (v : ℕ) × (value s i ≡ some v)
unfolding value
value_found [] i h = absurd (omega arith)
value_found (v ∷ vs) zero h = (v, refl)
value_found (v ∷ vs) (suc i) h = value_found vs i (omega arith)

pub value-set_self : (s : Semaphores) (i v : ℕ) → i < length s → value (set s i v) i ≡ some v
unfolding value
value-set_self [] i v h = absurd (omega arith)
value-set_self (w ∷ vs) zero v h = refl
value-set_self (w ∷ vs) (suc i) v h = value-set_self vs i v (omega arith)

-- Setting a semaphore of the set to a legal value succeeds.
pub semaphore_setval_done :
    (s : Semaphores) (i v : ℕ)
    → i < length s
    → v ≤ sem_max
    → semaphore_setval s i v ≡ done (set s i v)
unfolding semaphore_setval
semaphore_setval_done s i v h k =
    let (old, e) = value_found s i h in rw (e, semaphore_setval) (ground arith)

-- After a semaphore of the set was set to a legal value, a host that waits for zero is held where
-- the value is not zero, and passes without changing the set where it is zero.
pub waitforzero-setval :
    (s : Semaphores) (i v : ℕ) {s' : Semaphores}
    → i < length s
    → v ≤ sem_max
    → semaphore_setval s i v ≡ done s'
    → semaphore_waitforzero s' i ≡ done (if v == 0 then passed s' else blocked)
unfolding semaphore_waitforzero
waitforzero-setval s i v {s'} h k e =
    ground (arith, semaphore_setval_done s i v h k, value-set_self s i v h)
