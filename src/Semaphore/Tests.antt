-- ===== src/Semaphore/Tests.antt =====
-- The theorem on the go/stop semaphore at a concrete set.
use virtual_time_synchroniza.Prelude.{◌≡◌, refl, [], ◌∷◌, done}
use virtual_time_synchroniza.Semaphore.{semaphore_setval, value}

stopped : semaphore_setval (0 ∷ 0 ∷ []) 0 1 ≡ done (1 ∷ 0 ∷ [])
unfolding semaphore_setval value
stopped = refl
