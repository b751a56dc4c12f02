-- ===== src/TcpSession/Tests.antt =====
-- The theorems on TCP sessions at concrete sessions.
use virtual_time_synchroniza.Prelude.{
  ℕ, zero, suc, ◌+◌, ◌≡◌, refl, false, Bytes, [], ◌∷◌, ◌++◌, some, done, codes, arith, length,
}
use virtual_time_synchroniza.CLib.{print_4ld}
use virtual_time_synchroniza.RawMessage.{header_length, max_body_length}
use virtual_time_synchroniza.RawMessage.Tests.{hello}
use virtual_time_synchroniza.TcpSession.{
  Session, header, start, handle_read_header, handle_read_body,
}
use virtual_time_synchroniza.TcpSession.Frames.{receive_frame}
use virtual_time_synchroniza.TcpSession.Writes.{
  delivers, writes, handle_all, IsWriting, delivered, handle_all_lem,
}

-- A text of `n` equal characters.
abbrev pub fill : ℕ → Bytes
fill zero = []
fill (suc n) = 65 ∷ fill n

abbrev pub fresh : Session
fresh = start (record { contents = fill 516; body_length = 0 })

receive_frame_example :
    (s' : Session) × (handle_read_body false
        (codes "0012")
        (handle_read_header false (print_4ld 4) fresh)
      ≡ done (s', some (codes "0012")))
    × (s'.pending ≡ header)
    × (length s'.read_msg.contents ≡ header_length + max_body_length)
unfolding start
receive_frame_example =
    receive_frame (codes "0012") fresh (omega arith) (cc, (cc, (cc, (cc, tt)))) refl

handle_all_lem_example :
    (s' : Session) × (handle_all (writes ∷ delivers hello ∷ writes ∷ []) fresh ≡ done s')
    × IsWriting s'
    × (s'.written ++ s'.write_msgs
        ≡ (fresh.written ++ fresh.write_msgs) ++ delivered (writes ∷ delivers hello ∷ writes ∷ []))
unfolding start
handle_all_lem_example = handle_all_lem (writes ∷ delivers hello ∷ writes ∷ []) fresh refl
