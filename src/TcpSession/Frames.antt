-- ===== src/TcpSession/Frames.antt =====
-- A frame that a client sends is handed to the message processor as the client wrote it, unless its
-- body fills the buffer.
use virtual_time_synchroniza.Prelude.{
  ℕ, ◌+◌, ◌≤◌, ◌<◌, ◌≡◌, ◌≢◌, refl, true, false, Bytes, [], ◌∷◌, ◌++◌, some, done, crash,
  out_of_range, arith, drop, length, length-append, All, ltb, append_assoc,
}
use virtual_time_synchroniza.CLib.{print_4ld}
use virtual_time_synchroniza.CLib.Buffers.{
  c_string_text, set_behind, drop_past, drop_short, drop_everything,
}
use virtual_time_synchroniza.CLib.RoundTrip.{atoi-print_4ld}
use virtual_time_synchroniza.RawMessage.{
  header_length, max_body_length, body, decode_header, to_size,
}
use virtual_time_synchroniza.RawMessage.Header.{take_all, drop_all}
use virtual_time_synchroniza.TcpSession.{
  Session, header, body_of, handle_read_header, handle_read_body, store_body, terminate,
}

-- The four characters of a header in front of a session's buffer announce the length that the sender
-- put in, up to 512.
pub handle_read_header_frame :
    (n : ℕ) (s : Session)
    → n ≤ max_body_length
    → handle_read_header false (print_4ld n) s ≡ record s {
      read_msg = record {
        contents = print_4ld n ++ drop header_length s.read_msg.contents;
        body_length = n;
      };
      pending = body_of n;
    }
unfolding handle_read_header decode_header to_size
handle_read_header_frame n s h =
    let (back, four, whole) = atoi-print_4ld n h in
    rw (take_all 4 (print_4ld n) (drop 4 s.read_msg.contents) four, whole, back) (ground arith)

length-drop_4 : (xs : Bytes) → length xs ≡ 516 → length (drop 4 xs) ≡ 512
length-drop_4 (a ∷ b ∷ c ∷ d ∷ xs) h = omega arith
length-drop_4 _ h = absurd (omega arith)

-- The buffer with a header, a text and room behind it: the NUL goes behind the text.
terminate_text :
    (head text : Bytes) (y : ℕ) (rest : Bytes)
    → length head ≡ 4
    → terminate (record { contents = head ++ (text ++ (y ∷ rest)); body_length = length text })
      ≡ done (record { contents = head ++ (text ++ (0 ∷ rest)); body_length = length text })
unfolding terminate
terminate_text head text y rest four =
    let reach : length (head ++ text) ≡ 4 + length text = omega (arith, length-append head text) in
    let moved = set_behind (head ++ text) y 0 rest (4 + length text) reach in
    let room : ltb (4 + length text) (length (head ++ (text ++ (y ∷ rest)))) ≡ true =
      ground (arith, length-append head (text ++ (y ∷ rest)), length-append text (y ∷ rest)) in
    rw (room, ← append_assoc head text (y ∷ rest), moved, append_assoc head text (0 ∷ rest))

-- In a session whose buffer has its full size, the processor is given exactly the sender's text,
-- and the session asks for the next header: a header that announces the length of a text of less
-- than 512 bytes without NUL, and then the text.
pub receive_frame :
    (text : Bytes) (s : Session)
    → length text < max_body_length
    → All (λ c. c ≢ 0) text
    → length s.read_msg.contents ≡ header_length + max_body_length
    → (s' : Session) × (handle_read_body false text
          (handle_read_header false (print_4ld (length text)) s)
        ≡ done (s', some text))
      × (s'.pending ≡ header)
      × (length s'.read_msg.contents ≡ header_length + max_body_length)
unfolding handle_read_body store_body body
receive_frame text s short clean size =
    let head = print_4ld (length text) in
    let (_, four, _) = atoi-print_4ld (length text) (omega arith) in
    let (y, rest, e, k) =
      drop_short (length text) (drop 4 s.read_msg.contents)
        (omega (arith, length-drop_4 s.read_msg.contents size)) in
    rw
      (
        handle_read_header_frame (length text) s (omega arith),
        take_all 4 head (drop 4 s.read_msg.contents) four,
        drop_past 4 (length text) head (drop 4 s.read_msg.contents) four,
        e,
        terminate_text head text y rest four,
      )
      (
        record s {
          read_msg = record { contents = head ++ (text ++ (0 ∷ rest)); body_length = length text };
          pending = header;
        },
        rw (drop_all 4 head (text ++ (0 ∷ rest)) four, c_string_text text rest clean),
        refl,
        omega (
          arith,
          four,
          k,
          length-drop_4 s.read_msg.contents size,
          length-append head (text ++ (0 ∷ rest)),
          length-append text (0 ∷ rest),
        ),
      )

-- A header that announces 512 bytes and then a body of that length, which the header may hold,
-- make the session write the NUL behind the end of its full-sized buffer.
pub receive_full :
    (text : Bytes) (s : Session)
    → length text ≡ max_body_length
    → length s.read_msg.contents ≡ header_length + max_body_length
    → handle_read_body false text (handle_read_header false (print_4ld (length text)) s)
      ≡ crash out_of_range
unfolding handle_read_body store_body terminate
receive_full text s full size =
    let head = print_4ld (length text) in
    let (_, four, _) = atoi-print_4ld (length text) (omega arith) in
    let behind = drop 4 s.read_msg.contents in
    let nothing : drop (length text) behind ≡ [] =
      drop_everything (length text) behind
        (omega (arith, length-drop_4 s.read_msg.contents size)) in
    let no_room : ltb (4 + length text) (length (head ++ (text ++ []))) ≡ false =
      ground (arith, length-append head (text ++ []), length-append text [], four) in
    rw
      (
        handle_read_header_frame (length text) s (omega arith),
        take_all 4 head behind four,
        drop_past 4 (length text) head behind four,
        nothing,
        no_room,
      )
      refl
