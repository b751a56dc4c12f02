-- ===== src/Message/Tests.antt =====
-- The theorems on messages at a concrete agent.
use virtual_time_synchroniza.Prelude.{
  ◌≡◌, ◌≢◌, refl, true, false, Bytes, List, [], ◌∷◌, done, codes, arith,
}
use virtual_time_synchroniza.Prelude.Int.{◌*ℤ◌, ◌+ℤ◌, ◌-ℤ◌}
use virtual_time_synchroniza.Floats.Fixed.{fixed, fixed-IsOrdered, fixed-IsExact, quotient}
use virtual_time_synchroniza.Configuration.{defaults}
use virtual_time_synchroniza.TdfTable.Tests.{two_hosts, two_hosts-IsValid}
use virtual_time_synchroniza.Tc.Tests.{two_interfaces, two_interfaces-IsValid}
use virtual_time_synchroniza.Timer.{HostTime, cpu_get_clock_copy, virtual_now, get_clock}
use virtual_time_synchroniza.Timer.Tests.{at, running}
use virtual_time_synchroniza.Semaphore.{semaphore_waitforzero, vir_host, passed, blocked}
use virtual_time_synchroniza.Agent.{Agent, IsValid}
use virtual_time_synchroniza.Message.Tcp.{suspend, resume}
use virtual_time_synchroniza.Message.{parse_tcp_msg, parse_udp_msg}
use virtual_time_synchroniza.Message.Validity.{Succeeds, parse_udp_msg-Succeeds}
use virtual_time_synchroniza.Message.Crash.{Acceptable, parse_tcp_msg-Acceptable}
use virtual_time_synchroniza.Message.Forced.{process_all, Keeps, process_all-Keeps}
use virtual_time_synchroniza.Message.Suspend.{shows, resume-suspend}

abbrev pub agent : Agent
agent = record {
  config = defaults;
  tdf_table = two_hosts;
  iface_table = two_interfaces;
  shared = running;
  semaphores = 0 ∷ 0 ∷ 0 ∷ 0 ∷ [];
  use_rt_clock = true;
  executed = [];
}

pub agent-IsValid : IsValid agent
agent-IsValid = record {
  tdf_valid = two_hosts-IsValid;
  iface_valid = two_interfaces-IsValid;
  semaphores_all = refl;
}

-- The tokens of one message.
abbrev tdf_report : Bytes → List Bytes
tdf_report m = codes "0010" ∷ codes "zerg" ∷ codes "3.6" ∷ []

some_tokens : (m : Bytes) → tdf_report m ≢ []
some_tokens m = λ e. cc

parse_udp_msg-Succeeds_example : Succeeds (parse_udp_msg tdf_report (codes "0010|zerg|3.6") agent)
parse_udp_msg-Succeeds_example =
    parse_udp_msg-Succeeds fixed-IsOrdered tdf_report (codes "0010|zerg|3.6") agent (some_tokens [])
      agent-IsValid

abbrev unknown_interface : Bytes → List Bytes
unknown_interface m = codes "2" ∷ codes "eth7" ∷ []

no_tokens_missing : unknown_interface [] ≢ []
no_tokens_missing = λ e. cc

parse_tcp_msg-Acceptable_example :
    Acceptable
      (codes "2" ∷ codes "eth7" ∷ [])
      agent
      (parse_tcp_msg unknown_interface (at 0) (codes "2|eth7") agent)
parse_tcp_msg-Acceptable_example =
    parse_tcp_msg-Acceptable agent agent-IsValid unknown_interface (at 0) (codes "2|eth7")
      no_tokens_missing

abbrev forced : Agent
forced = record agent { tdf_table = record two_hosts { is_enabled = false } }

forced-IsValid : IsValid forced
forced-IsValid = record {
  tdf_valid = record { sorted = two_hosts-IsValid.sorted; no_null = two_hosts-IsValid.no_null };
  iface_valid = two_interfaces-IsValid;
  semaphores_all = refl;
}

process_all-Keeps_example :
    (a' : Agent) × (process_all tdf_report ([] ∷ [] ∷ []) forced ≡ done a')
    × IsValid a'
    × Keeps forced a'
process_all-Keeps_example =
    process_all-Keeps tdf_report fixed-IsOrdered ([] ∷ [] ∷ []) forced some_tokens forced-IsValid
      refl

resume-suspend_example :
    (held going : Agent) × (suspend (at 200) (codes "30" ∷ []) agent ≡ done held)
    × (semaphore_waitforzero held.semaphores vir_host ≡ done blocked)
    × ((later : HostTime) → shows held later ≡ shows agent (at 200))
    × (resume (at 300) (codes "31" ∷ []) held ≡ done going)
    × (semaphore_waitforzero going.semaphores vir_host ≡ done (passed going.semaphores))
    × (shows going (at 300) ≡ shows agent (at 200))
unfolding cpu_get_clock_copy virtual_now get_clock ◌*ℤ◌ ◌+ℤ◌ ◌-ℤ◌ quotient
resume-suspend_example =
    resume-suspend fixed-IsExact agent (codes "30") (codes "31") (at 200) (at 300) (omega arith)
      refl refl (omega arith) (omega arith) (omega arith)
