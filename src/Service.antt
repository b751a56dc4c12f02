-- ===== src/Service.antt =====
-- virtualagent/net/TcpAsyncServer.{hpp,cpp}, and the thread that serves the sockets (threadIoService of
-- virtualagent/VirtualAgent.cpp): it runs the completion handlers of both servers, one at a time.
pub mod Fit
pub mod Safety
mod Tests
use virtual_time_synchroniza.Prelude.{
  ℕ, ◌+◌, Bool, true, false, Bytes, List, [], ◌∷◌, Option, none, some, Outcome, done, crash, ◌>>=◌,
  if◌then◌else◌, ◌==◌,
}
use virtual_time_synchroniza.Floats.{Floats}
use virtual_time_synchroniza.Timer.{HostTime}
use virtual_time_synchroniza.Agent.{Agent}
use virtual_time_synchroniza.Message.{process_tcp_msg}
use virtual_time_synchroniza.TcpSession.{Session, header, body_of, left}
use virtual_time_synchroniza.TcpSession
use virtual_time_synchroniza.TcpConnectionManager.{TcpConnectionManager, join, leave}
use virtual_time_synchroniza.UdpAsyncServer.{handle_receive_from}

-- `find` in the set of the sessions.
unfoldable pub session_of : ℕ → List (ℕ × Session) → Option Session
session_of pointer [] = none
session_of pointer (p ∷ ps) = if p.0 == pointer then some p.1 else session_of pointer ps

-- A session has changed.
unfoldable pub put : ℕ → Session → List (ℕ × Session) → List (ℕ × Session)
put pointer s [] = []
put pointer s (p ∷ ps) =
    let rest = put pointer s ps in if p.0 == pointer then (p.0, s) ∷ rest else p ∷ rest

-- What a handler of a session leaves: a session that does not read any more leaves the manager.
unfoldable pub settle : ℕ → Session → TcpConnectionManager → TcpConnectionManager
settle pointer s m = elim s.pending [
  | left ↦ leave pointer m
  | header ↦ record m { participants = put pointer s m.participants }
  | body_of n ↦ record m { participants = put pointer s m.participants }
]

-- `handleAccept`: the session that waited for a connection is started, if one has come.
unfoldable pub handle_accept : Bool → ℕ → Session → TcpConnectionManager → TcpConnectionManager
handle_accept error pointer session m = if error then m else join pointer session m

-- A completion. The memory of an accept is what the buffer of the new session happens to hold.
pub data Event : Type 0 where
  accepts : Bool → Bytes → Event
  receives : Bool → Bytes → Event
  reads_header : ℕ → Bool → Bytes → Event
  reads_body : ℕ → Bool → Bytes → Event

module _ ⦃fl : Floats⦄ where
  pub record Service : Type 0 where
    pub agent : Agent
    pub manager : TcpConnectionManager
    -- The session that waits for a connection (startAccept), and the buffer of the UDP server.
    pub next : ℕ
    pub buffer : Bytes

  module _ (split : Bytes → List Bytes) where
    -- The body of a session's message goes to the message processor.
    unfoldable pub process : HostTime → Option Bytes → Agent → Outcome Agent
    process h none a = done a
    process h (some text) a = process_tcp_msg split h text a

    unfoldable pub read_body : HostTime → ℕ → Bool → Bytes → Session → Service → Outcome Service
    read_body h pointer error received s v = do
      (s', text) ← TcpSession.handle_read_body error received s
      agent ← process h text v.agent
      done (record v { agent = agent; manager = settle pointer s' v.manager })

    -- A completion of a session that has left the manager does not come any more.
    unfoldable pub handle : HostTime → Event → Service → Outcome Service
    handle h (accepts error memory) v =
        let s = TcpSession.start (record { contents = memory; body_length = 0 }) in
        done (record v { manager = handle_accept error v.next s v.manager; next = v.next + 1 })
    handle h (receives error received) v = do
      (buffer, agent) ← handle_receive_from split error received v.buffer v.agent
      done (record v { agent = agent; buffer = buffer })
    handle h (reads_header pointer error received) v =
        elim (session_of pointer v.manager.participants) [
          | none ↦ done v
          | some s ↦ done (record v {
            manager = settle pointer (TcpSession.handle_read_header error received s) v.manager;
          })
        ]
    handle h (reads_body pointer error received) v =
        elim (session_of pointer v.manager.participants) [
          | none ↦ done v
          | some s ↦ read_body h pointer error received s v
        ]

    -- The completions in their order, each with the time at which it is handled.
    unfoldable pub handle_all : List (HostTime × Event) → Service → Outcome Service
    handle_all [] v = done v
    handle_all (e ∷ es) v = handle e.0 e.1 v >>= λ v'. handle_all es v'
