-- ===== src/ChatClient/Lines.antt =====
-- What a line that is typed into the client becomes on the wire and in the agent.
use virtual_time_synchroniza.Prelude.{
  ◌+◌, ◌≤◌, ◌<◌, ◌≡◌, ◌≢◌, refl, false, Bytes, [], ◌∷◌, ◌++◌, some, done, crash, out_of_range,
  arith, take, drop, length, length-append, append_assoc, All, ltb,
}
use virtual_time_synchroniza.CLib.{c_string, print_4ld}
use virtual_time_synchroniza.CLib.RoundTrip.{atoi-print_4ld}
use virtual_time_synchroniza.RawMessage.{
  RawMessage, header_length, max_body_length, encode_header, frame_length, set_body_length,
}
use virtual_time_synchroniza.RawMessage.Header.{take_all, drop_all, take_whole}
use virtual_time_synchroniza.TcpSession.{Session, header}
use virtual_time_synchroniza.TcpSession
use virtual_time_synchroniza.TcpSession.Frames.{receive_frame, receive_full}
use virtual_time_synchroniza.ChatClient.{message_of, copy_line, wire}

-- A text without NUL is its own C string.
c_string_clean : (s : Bytes) → All (λ c. c ≢ 0) s → c_string s ≡ s
unfolding c_string
c_string_clean [] h = refl
c_string_clean (c ∷ s) h = ground (arith, c_string_clean s h.1)

length-take_4 : (xs : Bytes) → length xs ≡ 516 → length (take 4 xs) ≡ 4
length-take_4 (a ∷ b ∷ c ∷ d ∷ xs) h = omega arith
length-take_4 _ h = absurd (omega arith)

abbrev IsClean : Bytes → Type 0
IsClean line = All (λ c. c ≢ 0) line

-- The message carries the line behind the four characters of its length.
message_of_lem :
    (line : Bytes) (buffer : RawMessage)
    → IsClean line
    → length line ≤ max_body_length
    → length buffer.contents ≡ header_length + max_body_length
    → ((message_of line buffer).contents
        ≡ print_4ld (length line) ++ (line ++ drop (4 + length line) buffer.contents))
      × ((message_of line buffer).body_length ≡ length line)
unfolding message_of copy_line set_body_length encode_header
message_of_lem line buffer clean fits size =
    let (_, four, _) = atoi-print_4ld (length line) fits in
    let short : ltb max_body_length (length line) ≡ false = ground (arith, fits) in
    let head = length-take_4 buffer.contents size in
    rw
      (
        c_string_clean line clean,
        short,
        take_whole (length line) line refl,
        drop_all 4 (take 4 buffer.contents) (line ++ drop (4 + length line) buffer.contents) head,
        take_whole 4 (print_4ld (length line)) four,
      )
      (refl, refl)

-- On the wire a line of up to 512 characters is its length in four characters and then the line.
wire-message_of :
    (line : Bytes) (buffer : RawMessage)
    → IsClean line
    → length line ≤ max_body_length
    → length buffer.contents ≡ header_length + max_body_length
    → wire (message_of line buffer) ≡ print_4ld (length line) ++ line
unfolding frame_length
wire-message_of line buffer clean fits size =
    let (same, n) = message_of_lem line buffer clean fits size in
    let (_, four, _) = atoi-print_4ld (length line) fits in
    let whole : length (print_4ld (length line) ++ line) ≡ 4 + length line =
      omega (arith, four, length-append (print_4ld (length line)) line) in
    rw
      (
        same,
        n,
        ← append_assoc (print_4ld (length line)) line (drop (4 + length line) buffer.contents),
      )
      (take_all (4 + length line) (print_4ld (length line) ++ line) _ whole)

-- A line without NUL that is typed into the client, sent and received by a session whose buffer has its
-- full size: if it is shorter than 512 characters, the agent's message processor is given exactly the line;
-- if it has 512, which the client sends too, the session writes behind its buffer.
pub handle_read_body-wire :
    (line : Bytes) (buffer : RawMessage) (s : Session)
    → IsClean line
    → length line ≤ max_body_length
    → length buffer.contents ≡ header_length + max_body_length
    → length s.read_msg.contents ≡ header_length + max_body_length
    → let sent = wire (message_of line buffer) in
      let received =
        TcpSession.handle_read_body false
          (drop header_length sent)
          (TcpSession.handle_read_header false (take header_length sent) s) in
      (length line < max_body_length
        → (s' : Session) × (received ≡ done (s', some line)) × (s'.pending ≡ header))
      × (length line ≡ max_body_length → received ≡ crash out_of_range)
handle_read_body-wire line buffer s clean fits size size' =
    let (_, four, _) = atoi-print_4ld (length line) fits in
    rw
      (
        wire-message_of line buffer clean fits size,
        take_all 4 (print_4ld (length line)) line four,
        drop_all 4 (print_4ld (length line)) line four,
      )
      (
        λ short. let (s', run, at, _) = receive_frame line s short clean size' in (s', run, at),
        λ full. receive_full line s full size',
      )
