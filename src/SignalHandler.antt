-- ===== src/SignalHandler.antt =====
-- virtualagent/SignalHandler.{hpp,cpp}: the signals that the agent ignores or catches. The flag is
-- `isRunning`. `setUpSigactions`, which nothing calls, would put another
-- handler in place for SIGHUP.
use virtual_time_synchroniza.Prelude.{Bool, false, Bytes, [], ◌∷◌, ◌++◌, codes, ◌≡◌, arith}

-- The signals that the code names; `sig_other` stands for all others.
pub data Signal : Type 0 where
  sig_chld sig_tstp sig_ttou sig_ttin sig_hup sig_term sig_other : Signal

-- `SIG_IGN`, the handler, or what the system does by default.
pub data Disposition : Type 0 where
  ignored caught by_default : Disposition

unfoldable pub set_up_handlers : Signal → Disposition
set_up_handlers sig_chld = ignored
set_up_handlers sig_tstp = ignored
set_up_handlers sig_ttou = ignored
set_up_handlers sig_ttin = ignored
set_up_handlers sig_hup = caught
set_up_handlers sig_term = caught
set_up_handlers sig_other = by_default

-- The new value of the flag.
unfoldable pub signal_handler : Signal → Bool → Bool
signal_handler sig_term is_running = false
signal_handler sig is_running = is_running

-- What a signal that the process lives through does to the flag.
unfoldable pub receive : Signal → Bool → Bool
unfolding set_up_handlers
receive sig is_running = elim (set_up_handlers sig) [
  | caught ↦ signal_handler sig is_running
  | _ ↦ is_running
]

-- `setUpSigactions`, which changes what is done on SIGHUP alone.
unfoldable pub set_up_sigactions : (Signal → Disposition) → Signal → Disposition
set_up_sigactions before sig_hup = caught
set_up_sigactions before sig = before sig

-- `SIGHUPHandler` writes a line and leaves the flag.
unfoldable pub sighup_handler : Bytes → Bool → Bytes × Bool
sighup_handler output is_running = (output ++ (codes "SIGHUP received" ++ (10 ∷ [])), is_running)

-- With that handler too SIGHUP changes nothing but the output, and all signals are dealt with as before.
set_up_sigactions_lem :
    (sig : Signal) (output : Bytes) (is_running : Bool)
    → (set_up_sigactions set_up_handlers sig ≡ set_up_handlers sig)
      × ((sighup_handler output is_running).1 ≡ receive sig_hup is_running)
unfolding set_up_sigactions set_up_handlers sighup_handler receive signal_handler
set_up_sigactions_lem sig output is_running = ground arith
