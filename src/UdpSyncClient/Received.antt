-- ===== src/UdpSyncClient/Received.antt =====
-- From the input of the client's loop to the agent whose server receives the datagrams.
use virtual_time_synchroniza.Prelude.{
  ℕ, zero, suc, ◌+◌, ◌<◌, ◌≡◌, true, ◌≢◌, refl, Bytes, List, [], ◌∷◌, ◌++◌, Outcome, done, none,
  some, Option, ◌>>=◌, arith, All, length,
}
use virtual_time_synchroniza.Floats.{Floats, IsOrdered}
use virtual_time_synchroniza.Agent.{Agent, IsValid}
use virtual_time_synchroniza.Message.{parse_udp_msg}
use virtual_time_synchroniza.Message.Validity.{parse_udp_msg-Succeeds}
use virtual_time_synchroniza.UdpAsyncServer.{handle_receive_from, serve}
use virtual_time_synchroniza.UdpAsyncServer
use virtual_time_synchroniza.UdpAsyncServer.Receive.{handle_receive_from_text}
use virtual_time_synchroniza.UdpSyncClient.{opened}
use virtual_time_synchroniza.UdpSyncClient.Main.{Input, send_lines}
use virtual_time_synchroniza.UdpSyncClient.Lines.{IsLine, typed, blanks, ready, send_lines_lem}

module _ ⦃fl : Floats⦄ where
  open fl use {l}

  module _ (split : Bytes → List Bytes) where
    -- The messages, one after the other.
    unfoldable pub parse_all : List Bytes → Agent → Outcome Agent
    parse_all [] a = done a
    parse_all (m ∷ ms) a = parse_udp_msg split m a >>= λ a'. parse_all ms a'

    -- virtualagent/net/AsyncServerMain.cpp: the loop and a server on the port that it sends to, where the datagrams
    -- arrive in their order. `none` where a send throws.
    unfoldable pub async_server_main : ℕ → Input → Bytes → Agent → Option (Outcome (Bytes × Agent))
    async_server_main rounds input contents a = elim (send_lines rounds input opened) [
      | none ↦ none
      | some c ↦ some (serve split c.sent contents a)
    ]

    serve-blanks :
        (k : ℕ) (contents : Bytes) (a : Agent)
        → serve split (blanks k) contents a ≡ done (contents, a)
    unfolding serve handle_receive_from
    serve-blanks zero contents a = refl
    serve-blanks (suc k) contents a = serve-blanks k contents a

    module _ (laws : IsOrdered l) (cuts : (m : Bytes) → split m ≢ []) where
      serve_lines :
          (lines : List Bytes) (k : ℕ) (contents : Bytes) (a : Agent)
          → All IsLine lines
          → All (λ line. 0 < length line) lines
          → length contents ≡ UdpAsyncServer.max_length
          → IsValid a
          → (buffer : Bytes) × (a' : Agent) × (serve split (lines ++ blanks k) contents a
              ≡ done (buffer, a'))
            × (parse_all lines a ≡ done a')
            × IsValid a'
      unfolding serve parse_all
      serve_lines [] k contents a ok some_text size v =
          (contents, a, serve-blanks k contents a, refl, v)
      serve_lines (line ∷ lines) k contents a ok some_text size v =
          let (a1, run1, v1) = parse_udp_msg-Succeeds laws split line a (cuts line) v in
          let (buffer1, received, size1) =
            handle_receive_from_text split line contents a a1 some_text.0
              (omega (arith, size, ok.0.fits)) ok.0.no_nul run1 in
          let (buffer, a', served, parsed, v') =
            serve_lines lines k buffer1 a1 ok.1 some_text.1 (omega (arith, size1, size)) v1 in
          (buffer, a', rw received served, rw run1 parsed, v')

      -- Lines are typed into the client, none of them empty, none with a NUL and none too long for the
      -- client's buffer, and its loop goes round any number of times more. The server that receives
      -- the datagrams in their order leaves the agent as the message processor leaves it after the
      -- lines themselves, and valid: the empty datagrams, which the loop sends for ever at the end
      -- of its input, change nothing. The splitting gives at least one part of every text.
      pub async_server_main_lem :
          (lines : List Bytes) (k : ℕ) (contents : Bytes) (a : Agent)
          → All IsLine lines
          → All (λ line. 0 < length line) lines
          → length contents ≡ UdpAsyncServer.max_length
          → IsValid a
          → (buffer : Bytes) × (a' : Agent) × (send_lines
                (length lines + k)
                (ready (typed lines))
                opened
              ≡ some (record { is_open = true; sent = lines ++ blanks k }))
            × (async_server_main (length lines + k) (ready (typed lines)) contents a
                ≡ some (done (buffer, a')))
            × (parse_all lines a ≡ done a')
            × IsValid a'
      unfolding async_server_main
      async_server_main_lem lines k contents a ok some_text size v =
          let (buffer, a', served, parsed, v') =
            serve_lines lines k contents a ok some_text size v in
          let sends = send_lines_lem lines (length lines + k) k opened refl ok refl in
          (buffer, a', sends, rw (async_server_main, sends, served) refl, parsed, v')
