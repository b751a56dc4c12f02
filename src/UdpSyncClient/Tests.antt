-- ===== src/UdpSyncClient/Tests.antt =====
-- Lines that are typed into the client.
use virtual_time_synchroniza.Prelude.{
  ◌≡◌, true, refl, arith, Bytes, [], ◌∷◌, ◌++◌, codes, none, done, some,
}
use virtual_time_synchroniza.Floats.Fixed.{fixed, fixed-IsOrdered}
use virtual_time_synchroniza.Agent.{Agent, IsValid}
use virtual_time_synchroniza.Message.Tests.{agent, agent-IsValid}
use virtual_time_synchroniza.UdpAsyncServer.Tests.{
  fill, length-fill, at_bars, at_bars-some, clean_lem,
}
use virtual_time_synchroniza.UdpSyncClient.{opened, send_to, close}
use virtual_time_synchroniza.UdpSyncClient.Main.{take_line, send_lines}
use virtual_time_synchroniza.UdpSyncClient.Lines.{IsLine, typed, ready, spent}
use virtual_time_synchroniza.UdpSyncClient.Received.{
  parse_all, async_server_main, async_server_main_lem,
}

-- A line that is longer than the buffer is sent in part, and nothing but empty datagrams after it.
too_long :
    take_line 3 (codes "00101" ++ (10 ∷ codes "next"))
    ≡ (codes "001", spent (codes "01" ++ (10 ∷ codes "next")))
unfolding take_line
too_long = refl

closed_throws : send_to (codes "x") (close opened) ≡ none
unfolding send_to close
closed_throws = refl

abbrev line : Bytes
line = codes "0010|zerg|3"

line-IsLine : IsLine line
line-IsLine = record {
  no_newline = clean_lem 10 line refl;
  no_nul = clean_lem 0 line refl;
  fits = omega arith;
}

async_server_main_lem_example :
    (buffer : Bytes) × (a' : Agent) × (send_lines 4 (ready (typed (line ∷ line ∷ []))) opened
      ≡ some (record { is_open = true; sent = line ∷ line ∷ [] ∷ [] ∷ [] }))
    × (async_server_main at_bars 4 (ready (typed (line ∷ line ∷ []))) (fill 1024) agent
        ≡ some (done (buffer, a')))
    × (parse_all at_bars (line ∷ line ∷ []) agent ≡ done a')
    × IsValid a'
async_server_main_lem_example =
    async_server_main_lem at_bars fixed-IsOrdered at_bars-some (line ∷ line ∷ []) 2 (fill 1024)
      agent (line-IsLine, (line-IsLine, tt)) (omega arith, (omega arith, tt)) (length-fill 1024)
      agent-IsValid
