-- ===== src/UdpAsyncServer.antt =====
-- virtualagent/net/UdpAsyncServer.{hpp,cpp}: the server that hands the datagrams of the agents to the
-- message processor. What a receive stored in the buffer is an argument.
pub mod Receive
pub mod Tests
use virtual_time_synchroniza.Prelude.{
  ℕ, Bool, true, false, Bytes, List, [], ◌∷◌, ◌++◌, Outcome, done, crash, out_of_range, ◌>>=◌, ◌==◌,
  ltb, ◌||◌, length, drop, set, if◌then◌else◌,
}
use virtual_time_synchroniza.Floats.{Floats}
use virtual_time_synchroniza.Agent.{Agent}
use virtual_time_synchroniza.Message.{process_udp_msg}

-- `MAX_LENGTH`, the size of `data_`.
abbrev pub max_length : ℕ
max_length = 1024

module _ ⦃fl : Floats⦄ where
  module _ (split : Bytes → List Bytes) where
    -- `handleReceiveFrom`: a receive has stored `received` at the start of the buffer. The result is
    -- the buffer and the agent; the next receive is always asked for.
    unfoldable pub handle_receive_from : Bool → Bytes → Bytes → Agent → Outcome (Bytes × Agent)
    handle_receive_from error received contents a =
        let stored = received ++ drop (length received) contents in
        let at = length received in
        let terminated = set stored at 0 in
        if error || (at == 0)
        then done (stored, a)
        else if ltb at (length stored)
        then (process_udp_msg split terminated a >>= λ a'. done (terminated, a'))
        else crash out_of_range

    -- A run of the server: each receive is followed by the next one, into the same buffer.
    unfoldable pub serve : List Bytes → Bytes → Agent → Outcome (Bytes × Agent)
    serve [] contents a = done (contents, a)
    serve (received ∷ rest) contents a =
        handle_receive_from false received contents a >>= λ r. serve rest r.0 r.1
