-- ===== src/Service/Safety.antt =====
-- What the sockets bring does not stop the agent, but for the messages that its handlers do not survive.
use virtual_time_synchroniza.Prelude.{
  ℕ, ◌+◌, ◌<◌, ◌≡◌, ◌≢◌, refl, inl, inr, ◌∙◌, Bool, Bool-cases, Option-cases, true, false, Bytes,
  List, [], ◌∷◌, ◌++◌, some, Outcome, done, ◌==◌, ◌||◌, ltb, arith, drop, set, length,
  length-append,
}
use virtual_time_synchroniza.CLib.{c_string}
use virtual_time_synchroniza.CLib.Buffers.{length-drop, length-set}
use virtual_time_synchroniza.Floats.{Floats, IsOrdered}
use virtual_time_synchroniza.Timer.{HostTime}
use virtual_time_synchroniza.Agent.{Agent, IsValid}
use virtual_time_synchroniza.Message.{process_udp_msg, process_tcp_msg}
use virtual_time_synchroniza.Message.Validity.{Succeeds, parse_udp_msg-Succeeds}
use virtual_time_synchroniza.Message.Crash.{NamesMissing, parse_tcp_msg-Acceptable}
use virtual_time_synchroniza.RawMessage.{header_length, max_body_length}
use virtual_time_synchroniza.TcpSession.{Session, handle_read_body}
use virtual_time_synchroniza.UdpAsyncServer.{handle_receive_from, max_length}
use virtual_time_synchroniza.Service.{
  Service, Event, accepts, receives, reads_header, reads_body, handle, handle_all, handle_accept,
  process, read_body, session_of, settle,
}
use virtual_time_synchroniza.Service.Fit.{
  AllFit, start-IsFit, join-AllFit, settle-AllFit, session_of-IsFit, handle_read_header-IsFit,
  handle_read_body-IsFit,
}

module _ ⦃fl : Floats⦄ where
  open fl use {l}

  -- The agent is valid, and the buffers have their sizes.
  abbrev pub IsReady : Service → Type 0
  IsReady v = IsValid v.agent × AllFit v.manager.participants × (length v.buffer ≡ max_length)

  module _ (split : Bytes → List Bytes) where
    -- A completion as the sockets bring it, but no datagram that fills the buffer, no body of the greatest
    -- length, and no message of protocol 2 with the name of an interface that the table does not hold.
    abbrev pub IsHarmless : Event → Service → Type 0
    IsHarmless (accepts error memory) v = length memory ≡ header_length + max_body_length
    IsHarmless (receives error received) v = length received < max_length
    IsHarmless (reads_header pointer error received) v = length received ≡ header_length
    IsHarmless (reads_body pointer error received) v =
        (s : Session)
        → session_of pointer v.manager.participants ≡ some s
        → (length received ≡ s.read_msg.body_length)
          × (length received < max_body_length)
          × ((s' : Session) (text : Bytes)
              → handle_read_body error received s ≡ done (s', some text)
              → ¬ NamesMissing (split (c_string text)) v.agent)

    abbrev Goes : Outcome Service → Type 0
    Goes r = (v : Service) × (r ≡ done v) × IsReady v

    module _ (laws : IsOrdered l) (some_token : (msg : Bytes) → split msg ≢ []) where
      handle_receive_from-Succeeds :
          (error : Bool) (received buffer : Bytes) (a : Agent)
          → length received < max_length
          → length buffer ≡ max_length
          → IsValid a
          → (buffer' : Bytes) × (a' : Agent) × (handle_receive_from split error received buffer a
              ≡ done (buffer', a'))
            × (length buffer' ≡ max_length)
            × IsValid a'
      unfolding handle_receive_from process_udp_msg
      handle_receive_from-Succeeds error received buffer a short size ok =
          let stored = received ++ drop (length received) buffer in
          let full : length stored ≡ max_length = omega (
            arith,
            length-append received (drop (length received) buffer),
            length-drop (length received) buffer (omega (arith, size)),
            size,
          ) in
          let room : ltb (length received) (length stored) ≡ true = ground (arith, full) in
          let (a', run, ok') =
            parse_udp_msg-Succeeds laws split (c_string (set stored (length received) 0)) a
              (some_token _) ok in
          elim (Bool-cases (error || (length received == 0))) [
            | inl skip ↦ rw skip (stored, a, refl, full, ok)
            | inr go ↦
                rw (go, room, run)
                  (
                    set stored (length received) 0,
                    a',
                    refl,
                    length-set stored (length received) 0 ∙ full,
                    ok',
                  )
          ]

      process_tcp_msg-Succeeds :
          (h : HostTime) (text : Bytes) (a : Agent)
          → IsValid a
          → ¬ NamesMissing (split (c_string text)) a
          → Succeeds (process_tcp_msg split h text a)
      unfolding process_tcp_msg
      process_tcp_msg-Succeeds h text a ok names =
          elim (parse_tcp_msg-Acceptable a ok split h (c_string text) (some_token _)) [
            | inl good ↦ good.0
            | inr bad ↦ absurd (names bad.1)
          ]

      read_body-Goes :
          (h : HostTime) (pointer : ℕ) (error : Bool) (received : Bytes) (s : Session) (v : Service)
          → IsReady v
          → session_of pointer v.manager.participants ≡ some s
          → IsHarmless (reads_body pointer error received) v
          → Goes (read_body split h pointer error received s v)
      unfolding read_body process handle_read_body
      read_body-Goes h pointer true received s v (ok, fit, size) e harmless =
          let left_fit = session_of-IsFit pointer v.manager.participants fit e in
          (_, refl, (ok, settle-AllFit pointer _ v.manager (left_fit.0, tt) fit, size))
      read_body-Goes h pointer false received s v (ok, fit, size) e harmless =
          let (all, short, names) = harmless s e in
          let (s', text, run, fit') =
            handle_read_body-IsFit received s all short
              (session_of-IsFit pointer v.manager.participants fit e) in
          let (a', done_with, ok') =
            process_tcp_msg-Succeeds h text v.agent ok (names s' text run) in
          (
            record v { agent = a'; manager = settle pointer s' v.manager },
            cc (run, done_with),
            (ok', settle-AllFit pointer s' v.manager fit' fit, size),
          )

      handle-Goes :
          (h : HostTime) (e : Event) (v : Service)
          → IsReady v
          → IsHarmless e v
          → Goes (handle split h e v)
      unfolding handle handle_accept
      handle-Goes h (accepts true memory) v (ok, fit, size) harmless = (_, refl, (ok, fit, size))
      handle-Goes h (accepts false memory) v (ok, fit, size) harmless =
          (_, refl, (ok, join-AllFit v.next _ v.manager (start-IsFit memory harmless) fit, size))
      handle-Goes h (receives error received) v (ok, fit, size) harmless =
          let (buffer, a', run, same, ok') =
            handle_receive_from-Succeeds error received v.buffer v.agent harmless size ok in
          rw run (_, refl, (ok', fit, same))
      handle-Goes h (reads_header pointer error received) v (ok, fit, size) harmless =
          elim (Option-cases (session_of pointer v.manager.participants)) [
            | inl gone ↦ rw (gone, handle) (v, refl, (ok, fit, size))
            | inr (s, e) ↦
                rw (e, handle)
                  (
                    _,
                    refl,
                    (
                      ok,
                      settle-AllFit pointer _ v.manager
                          (handle_read_header-IsFit error received s harmless
                            (session_of-IsFit pointer v.manager.participants fit e))
                          fit,
                      size,
                    ),
                  )
          ]
      handle-Goes h (reads_body pointer error received) v ready harmless =
          elim (Option-cases (session_of pointer v.manager.participants)) [
            | inl gone ↦ rw (gone, handle) (v, refl, ready)
            | inr (s, e) ↦
                rw (e, handle) (read_body-Goes h pointer error received s v ready e harmless)
          ]

    -- Every completion is harmless at the time at which it comes.
    abbrev pub AllHarmless : List (HostTime × Event) → Service → Type 0
    AllHarmless [] v = Unit
    AllHarmless (e ∷ es) v =
        IsHarmless e.1 v × ((v' : Service) → handle split e.0 e.1 v ≡ done v' → AllHarmless es v')

    -- From a valid agent with buffers of their full size, however many connections, datagrams, headers of
    -- four bytes and bodies of the announced length come, in whatever order and with whatever bytes and
    -- errors: no handler crashes and the agent stays valid, as long as no datagram fills its buffer of 1024
    -- bytes, no body has 512 bytes, and no message of protocol 2 names an interface that is not in the
    -- table. Of the splitting it is only taken that it yields a token.
    pub handle_all-Ready :
        (laws : IsOrdered l) (es : List (HostTime × Event)) (v : Service)
        → ((msg : Bytes) → split msg ≢ [])
        → IsReady v
        → AllHarmless es v
        → (v' : Service) × (handle_all split es v ≡ done v') × IsReady v'
    unfolding handle_all
    handle_all-Ready laws [] v some_token ready harmless = (v, refl, ready)
    handle_all-Ready laws (e ∷ es) v some_token ready (now, later) =
        let (v1, run1, ready1) = handle-Goes laws some_token e.0 e.1 v ready now in
        let (v2, run2, ready2) = handle_all-Ready laws es v1 some_token ready1 (later v1 run1) in
        (v2, cc (run1, run2), ready2)
