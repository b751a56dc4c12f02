-- ===== src/TcpSession/Writes.antt =====
-- The messages leave in the order in which they were delivered, one at a time.
use virtual_time_synchroniza.Prelude.{
  ◌≡◌, refl, inl, inr, false, List, [], ◌∷◌, ◌++◌, append_assoc, append-nil, Option, none, some,
  Outcome, done, ◌>>=◌, arith, ◌∙◌, sym, Option-cases,
}
use virtual_time_synchroniza.RawMessage.{RawMessage}
use virtual_time_synchroniza.TcpSession.{Session, deliver, handle_write}

-- A write is under way exactly where a message waits, and it is the oldest one.
abbrev pub InFlight : List RawMessage → Option RawMessage → Type 0
InFlight [] f = f ≡ none
InFlight (m ∷ ms) f = f ≡ some m

abbrev pub IsWriting : Session → Type 0
IsWriting s = InFlight s.write_msgs s.in_flight

-- A message is delivered, or the socket ends the write under way. It has nothing to end, and calls no
-- handler, where none is under way.
pub data Event : Type 0 where
  delivers : RawMessage → Event
  writes : Event

unfoldable pub handle : Event → Session → Outcome Session
handle (delivers m) s = done (deliver m s)
handle writes s = elim s.in_flight [ none ↦ done s | some m ↦ handle_write false s ]

unfoldable pub handle_all : List Event → Session → Outcome Session
handle_all [] s = done s
handle_all (e ∷ es) s = handle e s >>= λ s'. handle_all es s'

-- The messages that an event delivers.
abbrev pub new_messages : Event → List RawMessage
new_messages (delivers m) = m ∷ []
new_messages writes = []

abbrev pub delivered : List Event → List RawMessage
delivered [] = []
delivered (e ∷ es) = new_messages e ++ delivered es

abbrev all_messages : Session → List RawMessage
all_messages s = s.written ++ s.write_msgs

pub deliver_lem :
    (m : RawMessage) (s : Session) (q : List RawMessage)
    → s.write_msgs ≡ q
    → IsWriting s
    → IsWriting (deliver m s) × (all_messages (deliver m s) ≡ all_messages s ++ (m ∷ []))
unfolding deliver
deliver_lem m s [] e w = rw (e, deliver) (refl, sym (append_assoc s.written [] (m ∷ [])))
deliver_lem m s (x ∷ xs) e w =
    rw (e, deliver) (rw e at w, sym (append_assoc s.written (x ∷ xs) (m ∷ [])))

handle_write_lem :
    (s : Session) (m : RawMessage) (q : List RawMessage)
    → s.write_msgs ≡ q
    → s.in_flight ≡ some m
    → IsWriting s
    → (s' : Session) × (handle_write false s ≡ done s')
      × IsWriting s'
      × (all_messages s' ≡ all_messages s)
unfolding handle_write
handle_write_lem s m [] e f w = absurd (cc (f, rw e at w))
handle_write_lem s m (x ∷ []) e f w =
    rw (e, handle_write) (_, refl, refl, append-nil (s.written ++ (x ∷ [])))
handle_write_lem s m (x ∷ y ∷ ys) e f w =
    rw (e, handle_write) (_, refl, refl, append_assoc s.written (x ∷ []) (y ∷ ys))

handle_lem :
    (e : Event) (s : Session)
    → IsWriting s
    → (s' : Session) × (handle e s ≡ done s')
      × IsWriting s'
      × (all_messages s' ≡ all_messages s ++ new_messages e)
unfolding handle
handle_lem (delivers m) s w =
    let (writing, same) = deliver_lem m s s.write_msgs refl w in (deliver m s, refl, writing, same)
handle_lem writes s w = elim (Option-cases s.in_flight) [
  | inl idle ↦ (s, ground arith, w, sym (append-nil (all_messages s)))
  | inr (m, busy) ↦
      let (s', run, writing, same) = handle_write_lem s m s.write_msgs refl busy w in
      (s', ground arith, writing, same ∙ sym (append-nil (all_messages s)))
]

-- From a session whose write queue is consistent, whatever is delivered and whenever the writes end:
-- no handler fails, a write stays under way exactly where a message waits, and what was written
-- followed by what waits is what was there before, followed by the messages in the order of their
-- delivery. So none is lost, doubled or overtaken.
pub handle_all_lem :
    (es : List Event) (s : Session)
    → IsWriting s
    → (s' : Session) × (handle_all es s ≡ done s')
      × IsWriting s'
      × (s'.written ++ s'.write_msgs ≡ (s.written ++ s.write_msgs) ++ delivered es)
unfolding handle_all
handle_all_lem [] s w = (s, refl, w, sym (append-nil (all_messages s)))
handle_all_lem (e ∷ es) s w =
    let (s1, run1, w1, same1) = handle_lem e s w in
    let (s2, run2, w2, same2) = handle_all_lem es s1 w1 in
    (
      s2,
      cc (run1, run2),
      w2,
      same2 ∙ rw same1 (append_assoc (all_messages s) (new_messages e) (delivered es)),
    )
