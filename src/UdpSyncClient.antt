-- ===== src/UdpSyncClient.antt =====
-- virtualagent/net/UdpSyncClient.{hpp,cpp}: the socket by which an agent broadcasts, and the loop of
-- virtualagent/net/UdpSyncClientMain.cpp (the one of net/AsyncServerMain.cpp is the same), which sends the
-- lines of its input. The address is left out; a datagram that is sent is one element of `sent`.
pub mod Main
pub mod Lines
pub mod Received
mod Tests
use virtual_time_synchroniza.Prelude.{
  ℕ, Bool, true, false, Bytes, List, [], ◌∷◌, ◌++◌, Option, none, some, if◌then◌else◌, take,
}

pub record UdpSyncClient : Type 0 where
  pub is_open : Bool
  pub sent : List Bytes

-- The constructor opens the socket.
abbrev pub opened : UdpSyncClient
opened = record { is_open = true; sent = [] }

-- `none` where `send_to` throws, on a socket that is closed.
unfoldable pub send_to : Bytes → UdpSyncClient → Option UdpSyncClient
send_to msg c = if c.is_open then some (record c { sent = c.sent ++ (msg ∷ []) }) else none

-- The overload for a buffer and a length.
unfoldable pub send_to_buffer : Bytes → ℕ → UdpSyncClient → Option UdpSyncClient
unfolding send_to
send_to_buffer msg size c = send_to (take size msg) c

unfoldable pub close : UdpSyncClient → UdpSyncClient
close c = record c { is_open = false }
