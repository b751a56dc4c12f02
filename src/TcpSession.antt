-- ===== src/TcpSession.antt =====
-- virtualagent/net/TcpSession.{hpp,cpp}: one connection of the TCP server, which reads frames and hands
-- their bodies to the message processor, and writes the messages that are delivered to it, one at a
-- time. The socket's completions are the calls of the handlers; what a read brings is its argument.
pub mod Frames
pub mod Writes
pub mod Tests
use virtual_time_synchroniza.Prelude.{
  ℕ, ◌+◌, ◌-◌, Bool, true, false, Bytes, List, [], ◌∷◌, ◌++◌, Option, none, some, Outcome, done,
  crash, out_of_range, ltb, if◌then◌else◌, ◌>>=◌, length, set, take, drop, not, ◌&&◌,
}
use virtual_time_synchroniza.CLib.{c_string}
use virtual_time_synchroniza.RawMessage.{
  RawMessage, header_length, max_body_length, body, decode_header,
}

-- The asynchronous read that is pending. `left` is a session that has left the connection manager.
pub data Pending : Type 0 where
  header : Pending
  body_of : ℕ → Pending
  left : Pending

pub record Session : Type 0 where
  pub read_msg : RawMessage
  pub pending : Pending
  -- `writeMsgs_`, the write that is under way, and what has been written.
  pub write_msgs : List RawMessage
  pub in_flight : Option RawMessage
  pub written : List RawMessage

-- The start of a session: `TcpSession::start` joins the manager and asks for the first header.
unfoldable pub start : RawMessage → Session
start m = record { read_msg = m; pending = header; write_msgs = []; in_flight = none; written = [] }

-- `handleReadHeader`: `received` are the four bytes that the read stored.
unfoldable pub handle_read_header : Bool → Bytes → Session → Session
handle_read_header error received s =
    let m : RawMessage = record (s.read_msg) {
      contents = received ++ drop header_length s.read_msg.contents;
    } in
    let (m', ok) = decode_header m in
    if error
    then record s { pending = left }
    else if ok
    then record s { read_msg = m'; pending = body_of m'.body_length }
    else record s { read_msg = m'; pending = left }

-- The buffer after a read of the body.
unfoldable pub store_body : Bytes → RawMessage → RawMessage
store_body received m = record m {
  contents =
      take header_length m.contents
      ++ (received ++ drop (header_length + length received) m.contents);
}

-- `strcpy(readMsg_.body() + readMsg_.body_length(), "")` writes a NUL behind the body.
unfoldable pub terminate : RawMessage → Outcome RawMessage
terminate m =
    let at = header_length + m.body_length in
    if ltb at (length m.contents)
    then done (record m { contents = set m.contents at 0 })
    else crash out_of_range

-- `handleReadBody`: the new session, and the text that the message processor is given.
unfoldable pub handle_read_body : Bool → Bytes → Session → Outcome (Session × Option Bytes)
unfolding store_body terminate
handle_read_body error received s =
    if error
    then done (record s { pending = left }, none)
    else (terminate (store_body received s.read_msg) >>= λ m.
        done (record s { read_msg = m; pending = header }, some (c_string (body m))))

-- `deliver`
unfoldable pub deliver : RawMessage → Session → Session
deliver msg s = elim s.write_msgs [
  | [] ↦ record s { write_msgs = msg ∷ []; in_flight = some msg }
  | m ∷ ms ↦ record s { write_msgs = (m ∷ ms) ++ (msg ∷ []) }
]

-- The end of `handleWrite`, after `pop_front`.
unfoldable pub write_next : List RawMessage → Session → Session
write_next [] s = record s { write_msgs = []; in_flight = none }
write_next (m ∷ ms) s = record s { write_msgs = m ∷ ms; in_flight = some m }

-- `handleWrite`: the write under way has ended. `pop_front` on an empty queue is undefined.
unfoldable pub handle_write : Bool → Session → Outcome Session
unfolding write_next
handle_write error s =
    if error then done (record s { pending = left; in_flight = none }) else elim s.write_msgs [
      | [] ↦ crash out_of_range
      | m ∷ ms ↦ done (write_next ms (record s { written = s.written ++ (m ∷ []) }))
    ]
