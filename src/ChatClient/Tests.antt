-- ===== src/ChatClient/Tests.antt =====
-- The theorems on the client at concrete lines.
use virtual_time_synchroniza.Prelude.{
  ◌≡◌, ◌<◌, refl, true, false, [], ◌∷◌, ◌++◌, map, none, some, done, crash, out_of_range, codes,
  arith, take, drop,
}
use virtual_time_synchroniza.RawMessage.{RawMessage, header_length, max_body_length}
use virtual_time_synchroniza.TcpSession.{Session, header}
use virtual_time_synchroniza.TcpSession
use virtual_time_synchroniza.TcpSession.Tests.{fill, fresh}
use virtual_time_synchroniza.ChatClient.{
  ChatClient, reads_header, handle_write, message_of, wire, posted, run_tasks, lines_read,
}
use virtual_time_synchroniza.ChatClient.Lines.{handle_read_body-wire}
use virtual_time_synchroniza.ChatClient.Close.{close_lem}

abbrev empty_buffer : RawMessage
empty_buffer = record { contents = fill 516; body_length = 0 }

-- A client that is connected.
abbrev connected : ChatClient
connected = record {
  read_msg = empty_buffer;
  reading = reads_header;
  is_open = true;
  write_msgs = [];
  in_flight = none;
  written = [];
  output = [];
}

-- A line that does not fit the buffer ends the input.
too_long : lines_read (codes "0012" ∷ fill 513 ∷ codes "0031" ∷ []) ≡ codes "0012" ∷ []
unfolding lines_read
too_long = refl

handle_read_body-wire_example :
    let sent = wire (message_of (codes "0012") empty_buffer) in
    let received =
      TcpSession.handle_read_body false
        (drop header_length sent)
        (TcpSession.handle_read_header false (take header_length sent) fresh) in
    (4 < max_body_length
      → (s' : Session) × (received ≡ done (s', some (codes "0012"))) × (s'.pending ≡ header))
    × (4 ≡ max_body_length → received ≡ crash out_of_range)
unfolding TcpSession.start
handle_read_body-wire_example =
    handle_read_body-wire (codes "0012") empty_buffer fresh (cc, (cc, (cc, (cc, tt)))) (omega arith)
      refl refl

closed_waiting :
    let c' = run_tasks (posted empty_buffer (codes "0012" ∷ [])) connected in
    (c'.is_open ≡ false)
    × (c'.write_msgs
        ≡ connected.write_msgs ++ map (λ line. message_of line empty_buffer) (codes "0012" ∷ []))
    × (c'.written ≡ connected.written)
    × ((c'' : ChatClient) × (handle_write true c' ≡ done c'')
        × (c''.written ≡ connected.written)
        × (c''.is_open ≡ false))
closed_waiting = close_lem empty_buffer (codes "0012" ∷ []) connected
