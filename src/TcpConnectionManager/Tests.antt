-- ===== src/TcpConnectionManager/Tests.antt =====
-- The theorems on the connection manager at a concrete one.
use virtual_time_synchroniza.Prelude.{[], ◌∷◌}
use virtual_time_synchroniza.RawMessage.Tests.{hello}
use virtual_time_synchroniza.TcpSession.{start}
use virtual_time_synchroniza.TcpConnectionManager.{TcpConnectionManager}

abbrev one_message : TcpConnectionManager
one_message = record { participants = (3, start hello) ∷ []; recent_msgs = hello ∷ [] }
