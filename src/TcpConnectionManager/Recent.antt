-- ===== src/TcpConnectionManager/Recent.antt =====
-- What the connection manager remembers, and what a session that joins receives.
use virtual_time_synchroniza.Prelude.{
  ℕ, zero, suc, ◌+◌, ◌-◌, ◌≤◌, ◌≡◌, refl, ◌∙◌, sym, true, false, List, [], ◌∷◌, ◌++◌, append_assoc,
  append-nil, arith, drop, length, length-append, ltb, ◌==◌, Bool-cases, inl, inr,
}
use Prim.Native.Nat.add
use virtual_time_synchroniza.RawMessage.{RawMessage}
use virtual_time_synchroniza.TcpSession.{Session}
use virtual_time_synchroniza.TcpSession
use virtual_time_synchroniza.TcpSession.Writes.{IsWriting, deliver_lem}
use virtual_time_synchroniza.TcpConnectionManager.{
  TcpConnectionManager, deliver_each, trim, deliver, join, give, has,
}

-- The last hundred of a list, or all where there are fewer.
abbrev pub last_hundred : List RawMessage → List RawMessage
last_hundred ms = drop (length ms - 100) ms

trim-last_hundred : (ms : List RawMessage) → trim ms ≡ last_hundred ms
unfolding trim
trim-last_hundred [] = refl
trim-last_hundred (m ∷ ms) = elim (Bool-cases (ltb 100 (length (m ∷ ms)))) [
  | inl more ↦
      let k : length (m ∷ ms) - 100 ≡ suc (length ms - 100) = ground arith in
      rw (more, k) (trim-last_hundred ms)
  | inr few ↦ let k : length (m ∷ ms) - 100 ≡ 0 = ground arith in rw (few, k) refl
]

drop_nil : (a : ℕ) → drop {A = RawMessage} a [] ≡ []
drop_nil zero = refl
drop_nil (suc a) = refl

drop-drop : (a b : ℕ) (ms : List RawMessage) → drop a (drop b ms) ≡ drop (b + a) ms
drop-drop a zero ms = rw (add.zero a)
drop-drop a (suc b) [] = rw (drop_nil a, drop_nil (suc b + a))
drop-drop a (suc b) (m ∷ ms) = rw (add.suc b a) (drop-drop a b ms)

drop-append :
    (k : ℕ) (xs ys : List RawMessage) → k ≤ length xs → drop k xs ++ ys ≡ drop k (xs ++ ys)
drop-append zero xs ys h = refl
drop-append (suc k) [] ys h = absurd (omega arith)
drop-append (suc k) (x ∷ xs) ys h = drop-append k xs ys (omega arith)

length-drop : (k : ℕ) (xs : List RawMessage) → length (drop k xs) ≡ length xs - k
length-drop zero xs = omega arith
length-drop (suc k) [] = omega arith
length-drop (suc k) (x ∷ xs) = omega (arith, length-drop k xs)

-- Messages delivered one after the other.
unfoldable pub deliver_all : List RawMessage → TcpConnectionManager → TcpConnectionManager
deliver_all [] m = m
deliver_all (x ∷ xs) m = deliver_all xs (deliver x m)

last_hundred-snoc :
    (h : List RawMessage) (x : RawMessage)
    → last_hundred (last_hundred h ++ (x ∷ [])) ≡ last_hundred (h ++ (x ∷ []))
last_hundred-snoc h x =
    let k = length h - 100 in
    let moved = drop-append k h (x ∷ []) (omega arith) in
    let rest : length (drop k (h ++ (x ∷ []))) - 100 ≡ length h + 1 - k - 100 =
      omega (arith, length-drop k (h ++ (x ∷ [])), length-append h (x ∷ [])) in
    let sum : k + (length h + 1 - k - 100) ≡ length (h ++ (x ∷ [])) - 100 =
      omega (arith, length-append h (x ∷ [])) in
    rw (moved, rest, drop-drop (length h + 1 - k - 100) k (h ++ (x ∷ [])), sum)

-- From a manager that remembers the last hundred messages of its history, however many messages
-- are delivered, it remembers the last hundred of the history and these, in their order (all of
-- them, where there are fewer).
pub deliver_all-last_hundred :
    (ms history : List RawMessage) (m : TcpConnectionManager)
    → m.recent_msgs ≡ last_hundred history
    → (deliver_all ms m).recent_msgs ≡ last_hundred (history ++ ms)
unfolding deliver_all deliver
deliver_all-last_hundred [] history m e = rw (append-nil history) e
deliver_all-last_hundred (x ∷ ms) history m e =
    let one : (deliver x m).recent_msgs ≡ last_hundred (history ++ (x ∷ [])) =
      rw (trim-last_hundred (m.recent_msgs ++ (x ∷ [])), e) (last_hundred-snoc history x) in
    rw (append_assoc history (x ∷ []) ms) at
      (deliver_all-last_hundred ms (history ++ (x ∷ [])) (deliver x m) one)

deliver_each_lem :
    (ms : List RawMessage) (s : Session)
    → IsWriting s
    → IsWriting (deliver_each ms s)
      × ((deliver_each ms s).written ++ (deliver_each ms s).write_msgs
          ≡ (s.written ++ s.write_msgs) ++ ms)
unfolding deliver_each
deliver_each_lem [] s w = (w, sym (append-nil (s.written ++ s.write_msgs)))
deliver_each_lem (m ∷ ms) s w =
    let (w1, one) = deliver_lem m s s.write_msgs refl w in
    let (w2, rest) = deliver_each_lem ms (TcpSession.deliver m s) w1 in
    (w2, rest ∙ rw one (append_assoc (s.written ++ s.write_msgs) (m ∷ []) ms))

give-absent :
    (pointer : ℕ) (ms : List RawMessage) (ps : List (ℕ × Session))
    → has pointer ps ≡ false
    → give pointer ms ps ≡ ps
unfolding give
give-absent pointer ms [] h = refl
give-absent pointer ms (p ∷ ps) h = elim (Bool-cases (p.0 == pointer)) [
  | inl same ↦ absurd (cc (rw same at h))
  | inr other ↦ rw (other, give-absent pointer ms ps (rw other at h))
]

-- A session with a consistent write queue that is not yet among the participants joins them, with
-- no change to the others, and the messages remembered are queued for it behind what it had, in
-- their order.
pub join_lem :
    (pointer : ℕ) (s : Session) (m : TcpConnectionManager)
    → has pointer m.participants ≡ false
    → IsWriting s
    → (s' : Session) × ((join pointer s m).participants ≡ (pointer, s') ∷ m.participants)
      × ((join pointer s m).recent_msgs ≡ m.recent_msgs)
      × IsWriting s'
      × (s'.written ++ s'.write_msgs ≡ (s.written ++ s.write_msgs) ++ m.recent_msgs)
unfolding join give
join_lem pointer s m new w =
    let (w', all) = deliver_each_lem m.recent_msgs s w in
    let same : (pointer == pointer) ≡ true = ground arith in
    (
      deliver_each m.recent_msgs s,
      rw (new, same, give-absent pointer m.recent_msgs m.participants new) refl,
      refl,
      w',
      all,
    )
