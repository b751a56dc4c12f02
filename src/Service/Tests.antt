-- ===== src/Service/Tests.antt =====
-- The completions of a service with one session, in the middle of a message.
use virtual_time_synchroniza.Prelude.{
  ℕ, zero, suc, ◌≡◌, refl, ap, true, false, Bytes, List, [], ◌∷◌, none, some_injective, done, codes,
  arith, length,
}
use virtual_time_synchroniza.Floats.Fixed.{fixed, fixed-IsOrdered}
use virtual_time_synchroniza.Timer.{HostTime}
use virtual_time_synchroniza.Timer.Tests.{at}
use virtual_time_synchroniza.Message.Tests.{agent, agent-IsValid}
use virtual_time_synchroniza.TcpSession.{Session, body_of}
use virtual_time_synchroniza.TcpSession.Tests.{fill}
use virtual_time_synchroniza.Service.{
  Service, Event, accepts, receives, reads_header, reads_body, handle_all, session_of,
}
use virtual_time_synchroniza.Service.Safety.{IsReady, AllHarmless, handle_all-Ready}

length-fill : (n : ℕ) → length (fill n) ≡ n
length-fill zero = refl
length-fill (suc n) = omega (arith, length-fill n)

abbrev one_token : Bytes → List Bytes
one_token m = m ∷ []

-- A session that has read a header which announces four bytes.
abbrev middle : Session
middle = record {
  read_msg = record { contents = fill 516; body_length = 4 };
  pending = body_of 4;
  write_msgs = [];
  in_flight = none;
  written = [];
}

abbrev service : Service
service = record {
  agent = agent;
  manager = record { participants = (0, middle) ∷ []; recent_msgs = [] };
  next = 1;
  buffer = fill 1024;
}

service-IsReady : IsReady service
service-IsReady = (agent-IsValid, ((length-fill 516, (refl, omega arith)), tt), length-fill 1024)

abbrev completions : List (HostTime × Event)
completions =
    (at 10, reads_body 0 false (codes "0012"))
    ∷ (at 20, accepts false (fill 516))
    ∷ (at 30, reads_header 1 true (codes "junk"))
    ∷ (at 40, receives false (codes "0010"))
    ∷ []

completions-AllHarmless : AllHarmless one_token completions service
unfolding session_of
completions-AllHarmless = (
  λ s e. (
    ap (λ x. x.read_msg.body_length) (some_injective middle s e),
    omega arith,
    λ s' text run missing. missing,
  ),
  λ _ _. (length-fill 516, λ _ _. (refl, λ _ _. (omega arith, λ _ _. tt))),
)

handle_all-Ready_example :
    (v' : Service) × (handle_all one_token completions service ≡ done v') × IsReady v'
handle_all-Ready_example =
    handle_all-Ready one_token fixed-IsOrdered completions service
      (λ m e. absurd (ground (arith, e))) service-IsReady completions-AllHarmless
