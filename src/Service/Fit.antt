-- ===== src/Service/Fit.antt =====
-- The buffer of a session keeps its size, and the length of the body that it waits for fits it.
use virtual_time_synchroniza.Prelude.{
  ℕ, ◌+◌, ◌≤◌, ◌<◌, ◌≡◌, refl, inl, inr, ◌∙◌, ap, Bool, Bool-cases, true, false, Bytes, List, [],
  ◌∷◌, ◌++◌, some, some_injective, done, if◌then◌else◌, ◌==◌, ltb, arith, All, take, drop, length,
  length-append,
}
use mathlib.Core.Path.{subst}
use virtual_time_synchroniza.CLib.Buffers.{length-drop, length-take, length-set}
use virtual_time_synchroniza.RawMessage.{RawMessage, header_length, max_body_length, decode_header}
use virtual_time_synchroniza.RawMessage.Header.{decode_header_bounds}
use virtual_time_synchroniza.TcpSession.{
  Session, Pending, header, body_of, left, handle_read_header, handle_read_body, store_body,
  terminate, deliver, start,
}
use virtual_time_synchroniza.TcpConnectionManager.{
  TcpConnectionManager, join, leave, without, give, deliver_each, has,
}
use virtual_time_synchroniza.Service.{session_of, put, settle}

-- The length that the pending read announces is that of the message.
abbrev Announces : Pending → ℕ → Type 0
Announces header n = Unit
Announces left n = Unit
Announces (body_of k) n = (k ≡ n) × (k ≤ max_body_length)

abbrev pub IsFit : Session → Type 0
IsFit s =
    (length s.read_msg.contents ≡ header_length + max_body_length)
    × Announces s.pending s.read_msg.body_length

if_either {ℓ κ} :
    {A : Type ℓ} (P : A → Type κ) (b : Bool) {x y : A} → P x → P y → P (if b then x else y)
if_either P true p q = p
if_either P false p q = q

abbrev pub AllFit : List (ℕ × Session) → Type 0
AllFit = All (λ p. IsFit p.1)

pub start-IsFit :
    (memory : Bytes)
    → length memory ≡ header_length + max_body_length
    → IsFit (start (record { contents = memory; body_length = 0 }))
unfolding start
start-IsFit memory size = (size, tt)

deliver-IsFit : (m : RawMessage) (s : Session) → IsFit s → IsFit (deliver m s)
unfolding deliver
deliver-IsFit m s fit = go s.write_msgs refl
  where
    go : (q : List RawMessage) → s.write_msgs ≡ q → IsFit (deliver m s)
    go [] e = rw (e, deliver) fit
    go (x ∷ xs) e = rw (e, deliver) fit

deliver_each-IsFit : (ms : List RawMessage) (s : Session) → IsFit s → IsFit (deliver_each ms s)
unfolding deliver_each
deliver_each-IsFit [] s fit = fit
deliver_each-IsFit (m ∷ ms) s fit = deliver_each-IsFit ms (deliver m s) (deliver-IsFit m s fit)

give-AllFit :
    (pointer : ℕ) (ms : List RawMessage) (ps : List (ℕ × Session))
    → AllFit ps
    → AllFit (give pointer ms ps)
unfolding give
give-AllFit pointer ms [] fit = tt
give-AllFit pointer ms (p ∷ ps) (here, rest) =
    let rest' = give-AllFit pointer ms ps rest in
    if_either AllFit (p.0 == pointer) (deliver_each-IsFit ms p.1 here, rest') (here, rest')

put-AllFit :
    (pointer : ℕ) (s : Session) (ps : List (ℕ × Session))
    → IsFit s
    → AllFit ps
    → AllFit (put pointer s ps)
unfolding put
put-AllFit pointer s [] fit all = tt
put-AllFit pointer s (p ∷ ps) fit (here, rest) =
    let rest' = put-AllFit pointer s ps fit rest in
    if_either AllFit (p.0 == pointer) (fit, rest') (here, rest')

without-AllFit : (pointer : ℕ) (ps : List (ℕ × Session)) → AllFit ps → AllFit (without pointer ps)
unfolding without
without-AllFit pointer [] all = tt
without-AllFit pointer (p ∷ ps) (here, rest) =
    let rest' = without-AllFit pointer ps rest in
    if_either AllFit (p.0 == pointer) rest' (here, rest')

pub join-AllFit :
    (pointer : ℕ) (s : Session) (m : TcpConnectionManager)
    → IsFit s
    → AllFit m.participants
    → AllFit (join pointer s m).participants
unfolding join
join-AllFit pointer s m fit all =
    give-AllFit pointer m.recent_msgs _
      (if_either AllFit (has pointer m.participants) all (fit, all))

pub settle-AllFit :
    (pointer : ℕ) (s : Session) (m : TcpConnectionManager)
    → IsFit s
    → AllFit m.participants
    → AllFit (settle pointer s m).participants
unfolding settle leave
settle-AllFit pointer s m fit all = go s.pending refl
  where
    go : (q : Pending) → s.pending ≡ q → AllFit (settle pointer s m).participants
    go left e = rw (e, settle) (without-AllFit pointer m.participants all)
    go header e = rw (e, settle) (put-AllFit pointer s m.participants fit all)
    go (body_of n) e = rw (e, settle) (put-AllFit pointer s m.participants fit all)

pub session_of-IsFit :
    (pointer : ℕ) (ps : List (ℕ × Session)) {s : Session}
    → AllFit ps
    → session_of pointer ps ≡ some s
    → IsFit s
unfolding session_of
session_of-IsFit pointer [] all e = absurd (ground (arith, e))
session_of-IsFit pointer (p ∷ ps) {s} (here, rest) e = elim (Bool-cases (p.0 == pointer)) [
  | inl found ↦ subst IsFit (some_injective p.1 s (rw found at e)) here
  | inr other ↦ session_of-IsFit pointer ps rest (rw other at e)
]

-- Four bytes in front of the buffer, of any kind.
pub handle_read_header-IsFit :
    (error : Bool) (received : Bytes) (s : Session)
    → length received ≡ header_length
    → IsFit s
    → IsFit (handle_read_header error received s)
unfolding handle_read_header
handle_read_header-IsFit error received s four fit =
    let m : RawMessage = record (s.read_msg) {
      contents = received ++ drop header_length s.read_msg.contents;
    } in
    let (bound, same, _) = decode_header_bounds m in
    let size : length (decode_header m).0.contents ≡ header_length + max_body_length = omega (
      arith,
      ap length same,
      length-append received (drop header_length s.read_msg.contents),
      length-drop header_length s.read_msg.contents (omega (arith, fit.0)),
      fit.0,
    ) in
    if_either IsFit error (fit.0, tt)
      (if_either IsFit (decode_header m).1 (size, (refl, bound)) (size, tt))

-- A body of the length that was announced, if it does not fill the buffer.
pub handle_read_body-IsFit :
    (received : Bytes) (s : Session)
    → length received ≡ s.read_msg.body_length
    → length received < max_body_length
    → IsFit s
    → (s' : Session) × (text : Bytes) × (handle_read_body false received s ≡ done (s', some text))
      × IsFit s'
unfolding handle_read_body store_body terminate
handle_read_body-IsFit received s all short fit =
    let c = s.read_msg.contents in
    let stored = take header_length c ++ (received ++ drop (header_length + length received) c) in
    let size : length stored ≡ 516 = omega (
      arith,
      length-append (take header_length c) (received ++ drop (header_length + length received) c),
      length-append received (drop (header_length + length received) c),
      length-take header_length c (omega (arith, fit.0)),
      length-drop (header_length + length received) c (omega (arith, fit.0)),
      fit.0,
    ) in
    let room : ltb (header_length + s.read_msg.body_length) (length stored) ≡ true =
      ground (arith, size) in
    rw (room, terminate)
      (_, _, refl, (length-set stored (header_length + s.read_msg.body_length) 0 ∙ size, tt))
