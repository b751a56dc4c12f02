-- ===== src/TcpConnectionManager.antt =====
-- virtualagent/net/TcpConnectionManager.{hpp,cpp}: the sessions that are connected, and the last
-- messages, which a session that joins is given. A session is known by the number of its pointer; the
-- order of the set, which is that of the pointers, is not modelled.
pub mod Recent
pub mod Tests
use virtual_time_synchroniza.Prelude.{
  ℕ, Bool, true, false, List, [], ◌∷◌, ◌++◌, ltb, ◌==◌, length, if◌then◌else◌, map,
}
use virtual_time_synchroniza.RawMessage.{RawMessage}
use virtual_time_synchroniza.TcpSession.{Session}
use virtual_time_synchroniza.TcpSession

abbrev pub max_recent_msgs : ℕ
max_recent_msgs = 100

pub record TcpConnectionManager : Type 0 where
  pub participants : List (ℕ × Session)
  pub recent_msgs : List RawMessage

-- A session is given messages in their order.
unfoldable pub deliver_each : List RawMessage → Session → Session
deliver_each [] s = s
deliver_each (m ∷ ms) s = deliver_each ms (TcpSession.deliver m s)

abbrev pub has : ℕ → List (ℕ × Session) → Bool
has pointer [] = false
has pointer (p ∷ ps) = if p.0 == pointer then true else has pointer ps

-- The session that a pointer stands for receives messages.
unfoldable pub give : ℕ → List RawMessage → List (ℕ × Session) → List (ℕ × Session)
give pointer ms [] = []
give pointer ms (p ∷ ps) =
    let rest = give pointer ms ps in
    if p.0 == pointer then (p.0, deliver_each ms p.1) ∷ rest else p ∷ rest

-- `join`: a pointer that is in the set stays there once.
unfoldable pub join : ℕ → Session → TcpConnectionManager → TcpConnectionManager
join pointer s m =
    let all =
      if has pointer m.participants then m.participants else (pointer, s) ∷ m.participants in
    record m { participants = give pointer m.recent_msgs all }

unfoldable pub without : ℕ → List (ℕ × Session) → List (ℕ × Session)
without pointer [] = []
without pointer (p ∷ ps) =
    let rest = without pointer ps in if p.0 == pointer then rest else p ∷ rest

unfoldable pub leave : ℕ → TcpConnectionManager → TcpConnectionManager
leave pointer m = record m { participants = without pointer m.participants }

-- `while (recentMsgs_.size() > MAX_RECENT_MSGS) recentMsgs_.pop_front();`
unfoldable pub trim : List RawMessage → List RawMessage
trim [] = []
trim (m ∷ ms) = let rest = trim ms in if ltb max_recent_msgs (length (m ∷ ms)) then rest else m ∷ ms

unfoldable pub deliver : RawMessage → TcpConnectionManager → TcpConnectionManager
deliver msg m = record {
  recent_msgs = trim (m.recent_msgs ++ (msg ∷ []));
  participants = map (λ p. (p.0, TcpSession.deliver msg p.1)) m.participants;
}
