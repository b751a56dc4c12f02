-- ===== src/ChatClient/Close.antt =====
-- What the end of the input does to the lines that have not been written yet.
use virtual_time_synchroniza.Prelude.{
  ◌≡◌, refl, sym, ◌∙◌, true, false, Bytes, List, [], ◌∷◌, ◌++◌, map, append_assoc, append-nil, done,
}
use virtual_time_synchroniza.RawMessage.{RawMessage}
use virtual_time_synchroniza.ChatClient.{
  ChatClient, do_write, do_close, handle_write, message_of, posted, run_tasks,
}

do_write_lem :
    (m : RawMessage) (c : ChatClient) (q : List RawMessage)
    → c.write_msgs ≡ q
    → ((do_write m c).written ≡ c.written) × ((do_write m c).write_msgs ≡ c.write_msgs ++ (m ∷ []))
unfolding do_write
do_write_lem m c [] e = rw (e, do_write) (refl, refl)
do_write_lem m c (x ∷ xs) e = rw (e, do_write) (refl, refl)

-- Where the service runs what the main thread has posted for any lines and the end of the input before a
-- write ends, the socket is closed while all the messages still wait, and no handler of a write has been
-- run; if the write under way then ends with an error, its handler writes nothing either.
pub close_lem :
    (buffer : RawMessage) (lines : List Bytes) (c : ChatClient)
    → let c' = run_tasks (posted buffer lines) c in
      (c'.is_open ≡ false)
      × (c'.write_msgs ≡ c.write_msgs ++ map (λ line. message_of line buffer) lines)
      × (c'.written ≡ c.written)
      × ((c'' : ChatClient) × (handle_write true c' ≡ done c'')
          × (c''.written ≡ c.written)
          × (c''.is_open ≡ false))
unfolding run_tasks posted do_close handle_write
close_lem buffer [] c = (refl, sym (append-nil c.write_msgs), refl, (_, refl, refl, refl))
close_lem buffer (line ∷ lines) c =
    let m = message_of line buffer in
    let (same, waits) = do_write_lem m c c.write_msgs refl in
    let (closed, all, none_written, (c'', run, none_later, closed_later)) =
      close_lem buffer lines (do_write m c) in
    (
      closed,
      all ∙ rw waits (append_assoc c.write_msgs (m ∷ []) (map (λ l. message_of l buffer) lines)),
      none_written ∙ same,
      (c'', run, none_later ∙ same, closed_later),
    )
