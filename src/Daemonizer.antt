-- ===== src/Daemonizer.antt =====
-- virtualagent/Daemonizer.{hpp,cpp} and virtualagent/virtualagentd.cpp: how the program becomes a daemon, and
-- its exit status. The results of `fork`, `setsid` and `chdir` are arguments; `exit` ends the process with a
-- status, which is a crash of the model also where the status is that of a success.
pub mod Status
mod Tests
use virtual_time_synchroniza.Prelude.{
  ℕ, ◌≡◌, refl, ◌⊎◌, inl, inr, Bool, true, false, ◌||◌, Bytes, List, [], ◌∷◌, Outcome, done, crash,
  exits, if◌then◌else◌, ◌==◌, arith, All, codes,
}
use virtual_time_synchroniza.Prelude.Int.{ℤ, pos, negsuc, ltb_ℤ}

-- What `daemonize` changes of a process: the descriptors are those that are open.
pub record Process : Type 0 where
  pub mode_mask : ℕ
  pub session : ℤ
  pub directory : Bytes
  pub descriptors : List ℕ

-- `close`, which fails on a descriptor that is not open, and changes nothing then.
unfoldable pub close : ℕ → List ℕ → List ℕ
close fd [] = []
close fd (d ∷ ds) = let rest = close fd ds in if d == fd then rest else d ∷ rest

-- `STDIN_FILENO`, `STDOUT_FILENO` and `STDERR_FILENO` are closed in this order.
unfoldable pub close_standard : List ℕ → List ℕ
close_standard ds = close 2 (close 1 (close 0 ds))

-- The process that goes on, or the status with which it exits.
unfoldable pub daemonize : ℤ → ℤ → ℤ → Process → Outcome Process
unfolding close_standard
daemonize pid sid chdir p =
    if ltb_ℤ pid (pos 0)
    then crash (exits 1)
    else if ltb_ℤ (pos 0) pid
    then crash (exits 0)
    else if ltb_ℤ sid (pos 0)
    then crash (exits 1)
    else if ltb_ℤ chdir (pos 0)
    then crash (exits 1)
    else done (record {
      mode_mask = 0;
      session = sid;
      directory = codes "/";
      descriptors = close_standard p.descriptors;
    })

-- `main` behind the Daemonizer: the status, where the configuration of the log throws or not. The exceptions
-- of the agent itself are caught in VirtualAgent::start.
unfoldable pub main_status : Bool → ℕ
main_status log_throws = if log_throws then 1 else 0

-- The status of the program, for the process that the shell has started and for its child.
unfoldable pub main : ℤ → ℤ → ℤ → Bool → Process → ℕ
unfolding daemonize main_status
main pid sid chdir log_throws p = elim (daemonize pid sid chdir p) [
  | done q ↦ main_status log_throws
  | crash (exits n) ↦ n
  | crash fault ↦ 1
]
