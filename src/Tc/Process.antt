-- ===== src/Tc/Process.antt =====
-- `InterfaceConfigurator::system4Background`: run a command in a child process and wait for it.
-- `trim` and `split` are Boost's (`split` cuts at blanks and joins adjacent ones); the results of
-- `fork` and `waitpid` are arguments.
use virtual_time_synchroniza.Prelude.{
  ◌≡◌, Bool, true, false, Bytes, List, [], ◌∷◌, Option, none, some, arith, if◌then◌else◌, All,
}
use virtual_time_synchroniza.Prelude.Int.{ℤ, pos, negsuc, ltb_ℤ, ◌≤ℤ◌}

-- One return of `waitpid`: below zero with an `errno`, or with the child's status. `EINTR` is told
-- apart.
pub data WaitResult : Type 0 where
  interrupted : WaitResult
  failed : ℤ → WaitResult
  ended : ℤ → WaitResult

-- The `while` loop over the returns of `waitpid`; `none` where the process still waits after them.
unfoldable pub wait_loop : List WaitResult → Option ℤ
wait_loop [] = none
wait_loop (interrupted ∷ rest) = wait_loop rest
wait_loop (failed errno ∷ rest) = some errno
wait_loop (ended status ∷ rest) = some status

-- What the process does: the child's `argv`, if there is a child, and the status that the parent
-- returns.
pub record Run : Type 0 where
  pub argv : Option (List Bytes)
  pub status : Option ℤ

abbrev pub is_empty : Bytes → Bool
is_empty [] = true
is_empty (c ∷ s) = false

module _ (trim : Bytes → Bytes) (split : Bytes → List Bytes) where
  unfoldable pub system4_background : Bytes → ℤ → List WaitResult → Run
  system4_background cmd pid waits =
      let cmd_string = trim cmd in
      if is_empty cmd_string
      then record { argv = none; status = some (pos 1) }
      else if ltb_ℤ pid (pos 0)
      then record { argv = none; status = some (negsuc 0) }
      else record { argv = some (split cmd_string); status = wait_loop waits }

  -- The statuses of a child and the values of `errno` are not below zero.
  abbrev pub IsSane : WaitResult → Type 0
  IsSane interrupted = Unit
  IsSane (failed errno) = pos 0 ≤ℤ errno
  IsSane (ended status) = pos 0 ≤ℤ status

  wait_loop-nonneg :
      (waits : List WaitResult) (r : ℤ) → All IsSane waits → wait_loop waits ≡ some r → pos 0 ≤ℤ r
  unfolding wait_loop
  wait_loop-nonneg [] r h e = absurd (ground arith)
  wait_loop-nonneg (interrupted ∷ rest) r h e = wait_loop-nonneg rest r h.1 e
  wait_loop-nonneg (failed errno ∷ rest) r h e = ground arith
  wait_loop-nonneg (ended status ∷ rest) r h e = ground arith

  -- The status is below zero, which the callers log as an error, exactly where there is a command
  -- and `fork` fails: a command that fails in the child goes unnoticed.
  pub system4_background_status :
      (cmd : Bytes) (pid : ℤ) (waits : List WaitResult) (r : ℤ)
      → All IsSane waits
      → (system4_background cmd pid waits).status ≡ some r
      → ((ltb_ℤ r (pos 0) ≡ true) → (is_empty (trim cmd) ≡ false) × (ltb_ℤ pid (pos 0) ≡ true))
        × ((is_empty (trim cmd) ≡ false) × (ltb_ℤ pid (pos 0) ≡ true) → ltb_ℤ r (pos 0) ≡ true)
  unfolding system4_background
  system4_background_status cmd pid waits r h e = ground (arith, wait_loop-nonneg waits r h)
