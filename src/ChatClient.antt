-- ===== src/ChatClient.antt =====
-- virtualagent/net/chat_client.cpp: the client by which a controller sends lines to an agent. The calls of
-- the handlers are the socket's completions; what a read brings is an argument.
pub mod Lines
pub mod Close
mod Tests
use virtual_time_synchroniza.Prelude.{
  ℕ, ◌+◌, Bool, true, false, not, Bytes, List, [], ◌∷◌, ◌++◌, Option, none, some, Outcome, done,
  crash, out_of_range, ltb, if◌then◌else◌, length, take, drop,
}
use virtual_time_synchroniza.CLib.{c_string}
use virtual_time_synchroniza.RawMessage.{
  RawMessage, header_length, max_body_length, body, decode_header, encode_header, frame_length,
  set_body_length,
}

-- What the client waits for: the connection, a header, a body of a length; `idle` is a client that has
-- not been connected or has closed its socket.
pub data Reading : Type 0 where
  connecting reads_header idle : Reading
  reads_body : ℕ → Reading

pub record ChatClient : Type 0 where
  pub read_msg : RawMessage
  pub reading : Reading
  pub is_open : Bool
  -- `write_msgs_`, the write that is under way, and what has been written.
  pub write_msgs : List RawMessage
  pub in_flight : Option RawMessage
  pub written : List RawMessage
  -- What has gone to the standard output.
  pub output : Bytes

-- The socket is closed, and the operations that are under way end with an error.
unfoldable pub do_close : ChatClient → ChatClient
do_close c = record c { is_open = false }

unfoldable pub handle_connect : Bool → ChatClient → ChatClient
handle_connect error c =
    if error then record c { reading = idle } else record c { reading = reads_header }

-- `received` are the four bytes that the read stored.
unfoldable pub handle_read_header : Bool → Bytes → ChatClient → ChatClient
unfolding do_close
handle_read_header error received c =
    let m : RawMessage = record (c.read_msg) {
      contents = received ++ drop header_length c.read_msg.contents;
    } in
    let (m', ok) = decode_header m in
    if error
    then do_close (record c { reading = idle })
    else if ok
    then record c { read_msg = m'; reading = reads_body m'.body_length }
    else do_close (record c { read_msg = m'; reading = idle })

-- The body is written to the standard output, and a newline.
unfoldable pub handle_read_body : Bool → Bytes → ChatClient → ChatClient
unfolding do_close
handle_read_body error received c =
    let m : RawMessage = record (c.read_msg) {
      contents =
          take header_length c.read_msg.contents
          ++ (received ++ drop (header_length + length received) c.read_msg.contents);
    } in
    if error then do_close (record c { reading = idle }) else record c {
      read_msg = m;
      reading = reads_header;
      output = c.output ++ (take m.body_length (body m) ++ (10 ∷ []));
    }

unfoldable pub do_write : RawMessage → ChatClient → ChatClient
do_write msg c = elim c.write_msgs [
  | [] ↦ record c { write_msgs = msg ∷ []; in_flight = some msg }
  | m ∷ ms ↦ record c { write_msgs = (m ∷ ms) ++ (msg ∷ []) }
]

-- The end of `handle_write`, after `pop_front`.
unfoldable pub write_next : List RawMessage → ChatClient → ChatClient
write_next [] c = record c { write_msgs = []; in_flight = none }
write_next (m ∷ ms) c = record c { write_msgs = m ∷ ms; in_flight = some m }

-- The write under way has ended. `pop_front` on an empty queue is undefined.
unfoldable pub handle_write : Bool → ChatClient → Outcome ChatClient
unfolding write_next do_close
handle_write error c =
    if error then done (do_close (record c { in_flight = none })) else elim c.write_msgs [
      | [] ↦ crash out_of_range
      | m ∷ ms ↦ done (write_next ms (record c { written = c.written ++ (m ∷ []) }))
    ]

-- `memcpy(msg.body(), line, msg.body_length())`
unfoldable pub copy_line : Bytes → RawMessage → RawMessage
copy_line line m = record m {
  contents =
      take header_length m.contents
      ++ (take m.body_length line ++ drop (header_length + m.body_length) m.contents);
}

-- The message that the loop of `main` makes of a line, in a buffer that holds anything.
unfoldable pub message_of : Bytes → RawMessage → RawMessage
unfolding copy_line
message_of line m =
    encode_header (copy_line (c_string line) (set_body_length (length (c_string line)) m))

-- The bytes that the client writes for a message.
abbrev pub wire : RawMessage → Bytes
wire m = take (frame_length m) m.contents

-- The lines that the loop of `main` reads: `getline` fails on one that does not fit its buffer.
unfoldable pub lines_read : List Bytes → List Bytes
lines_read [] = []
lines_read (line ∷ rest) =
    let more = lines_read rest in if ltb max_body_length (length line) then [] else line ∷ more

-- What the main thread posts to the service: a write for each line, and a close at the end of the input.
pub data Task : Type 0 where
  writes : RawMessage → Task
  closes : Task

-- `buffer` is what the message's buffer holds before.
unfoldable pub posted : RawMessage → List Bytes → List Task
posted buffer [] = closes ∷ []
posted buffer (line ∷ rest) = writes (message_of line buffer) ∷ posted buffer rest

-- The tasks that the service runs, in their order.
unfoldable pub run_tasks : List Task → ChatClient → ChatClient
run_tasks [] c = c
run_tasks (writes m ∷ rest) c = run_tasks rest (do_write m c)
run_tasks (closes ∷ rest) c = run_tasks rest (do_close c)
